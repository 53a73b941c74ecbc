-- ===== src/Optimizer/Narrow.antt =====
-- What the optimizer does to plans outside the class of `Lookup`: a filter with no projection above
-- it, and a projection by column index (fdapquery-optimizer/src/projection_push_down_rule.rs).
use mathlib.Core.List.{Perm}
use fdapquery.Base.{
  ℕ, suc, String, ◌≡◌, ◌≢◌, refl, ◌∙◌, false, none, some, List, [], ◌∷◌, map, is_empty, get_elem?,
  length, arith,
}
use fdapquery.Base.Names.{contains, insert}
use fdapquery.External.{External}
use fdapquery.Errors.{ok, bind-eq-ok}
use fdapquery.Expr.{Expr, column_index}
use fdapquery.Expr.Field.{to_field}
use fdapquery.Plan.{
  LogicalPlan, table_scan, projection, filter, schema, projection_schema, expr_fields,
}
use fdapquery.Plan.Scan.{TableScan}
use fdapquery.Optimizer.{
  nth_name, extract_columns, extract_columns_list, requested, push_down, optimize,
}
use fdapquery.Optimizer.Scans.{
  push_down_scan_total, names_in, names-requested, names-push_down_scan,
}
use fdapquery.Optimizer.Sorted.{Ascending}

module _ ⦃ext : External⦄ where
  -- A filter directly over a scan loses, when optimized, every column that its condition does not
  -- use: if the condition uses some column of the source, the names of the optimized output are, up
  -- to order, the source's names in the condition, and they are sorted.
  pub names-optimize-filter :
      (s : TableScan) (e : Expr) (cols : List String)
      → extract_columns e (ok s.schema) [] ≡ ok cols
      → is_empty (names_in s.data_source.schema cols) ≡ false
      → (q : LogicalPlan) × (t : ext.Schema) × (optimize (filter (table_scan s) e) ≡ ok q)
        × (schema q ≡ ok t)
        × Perm (map ext.name (ext.fields t)) (names_in s.data_source.schema cols)
        × Ascending (map ext.name (ext.fields t))
  unfolding optimize push_down schema
  names-optimize-filter s e cols extracted some_column =
      let (scan, p, _, _) = push_down_scan_total s cols in
      let (perm, ascending) = names-push_down_scan s scan cols some_column p in
      (filter (table_scan scan) e, scan.schema, rw (extracted, p), refl, perm, ascending)

  one_name : {n : String} (fs : List ext.Field) → map ext.name fs ≡ n ∷ [] → length fs ≡ 1
  one_name [] h = cc
  one_name (f ∷ []) h = refl
  one_name (f ∷ g ∷ fs) h = cc

  past_end : (i : ℕ) (fs : List ext.Field) → length fs ≡ 1 → get_elem? fs (suc i) ≡ none
  past_end i [] h = refl
  past_end i (f ∷ []) h = refl
  past_end i (f ∷ g ∷ fs) h = absurd (omega arith)

  to_field_past_end :
      (i : ℕ) (t : ext.Schema)
      → get_elem? (ext.fields t) i ≡ none
      → (f : ext.Field) → to_field (column_index i) (ok t) ≢ ok f
  unfolding to_field
  to_field_past_end i t h f k = ground arith

  no_schema :
      (i : ℕ) (t u : ext.Schema)
      → get_elem? (ext.fields t) i ≡ none
      → projection_schema (column_index i ∷ []) (ok t) ≢ ok u
  unfolding projection_schema expr_fields
  no_schema i t u h k =
      let (fs, p, _) = bind-eq-ok (expr_fields (column_index i ∷ []) (ok t)) _ k in
      let (f, q, _) = bind-eq-ok (to_field (column_index i) (ok t)) _ p in
      to_field_past_end i t h f q

  -- A projection of one column, by its index, directly over a scan of all the source's columns is
  -- broken by the optimizer, for any column but the first: where the source has just one column of
  -- that name, the optimized plan has no schema, since the index is past the end of the one column
  -- that the scan still reads.
  pub schema-optimize-column_index :
      (s : TableScan) (f : ext.Field) (i : ℕ)
      → s.schema ≡ s.data_source.schema
      → get_elem? (ext.fields s.schema) (suc i) ≡ some f
      → requested s.data_source.schema (ext.name f ∷ []) ≡ ext.name f ∷ []
      → (q : LogicalPlan) × (optimize (projection (table_scan s) (column_index (suc i) ∷ []))
          ≡ ok q)
        × ((t : ext.Schema) → schema q ≢ ok t)
  unfolding optimize push_down schema extract_columns_list extract_columns insert contains
  schema-optimize-column_index s f i plain elem single =
      let (scan, p, _, _) = push_down_scan_total s (ext.name f ∷ []) in
      let names = names-requested s scan (ext.name f ∷ []) (rw single refl) p ∙ single in
      (
        projection (table_scan scan) (column_index (suc i) ∷ []),
        rw (elem, nth_name, p),
        λ t.
            no_schema (suc i) scan.schema t
              (past_end i (ext.fields scan.schema) (one_name (ext.fields scan.schema) names)),
      )
