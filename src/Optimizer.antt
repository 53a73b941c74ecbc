-- ===== src/Optimizer.antt =====
-- fdapquery-optimizer/src/optimizer.rs, projection_push_down_rule.rs: the columns that expressions
-- use, and the rule that makes each table scan read only the columns that the plan above it uses.
-- A function that fills a `&mut HashSet<String>` returns the new set.
pub mod Columns
pub mod Fields
pub mod Sorted
pub mod Scans
pub mod Joins
pub mod Lookup
pub mod Total
pub mod Narrow
use fdapquery.Base.{
  ℕ, String, Option, none, some, List, [], ◌∷◌, map, if◌then◌else◌, is_empty, get_elem?,
  filter as keep, text_leb,
}
use fdapquery.Base.Names.{contains, insert, extend}
use fdapquery.External.{External}
use fdapquery.Errors.{Outcome, ok, err, panic, not_implemented, internal, ◌>>=◌}
use fdapquery.Expr.{
  Expr, column, column_index, literal, date_subtract_interval, date_add_interval, cast, binary_expr,
  alias, aggregate_function, to_list,
}
use fdapquery.Plan.{LogicalPlan, table_scan, projection, filter, aggregate, join, limit, schema}
use fdapquery.Plan.Scan.{TableScan, new_scan}

-- `Vec<String>::sort`.
insert_sorted : String → List String → List String
insert_sorted s [] = s ∷ []
insert_sorted s (t ∷ ts) = if text_leb s t then s ∷ t ∷ ts else t ∷ insert_sorted s ts

unfoldable pub sort : List String → List String
unfolding insert_sorted
sort [] = []
sort (s ∷ ss) = insert_sorted s (sort ss)

module _ ⦃ext : External⦄ where
  -- Indexing past the end of the fields panics.
  nth_name : ext.Schema → ℕ → Outcome String
  nth_name s i = elim (get_elem? (ext.fields s) i) [
    | none ↦ panic "index out of bounds"
    | some f ↦ ok (ext.name f)
  ]

  unfoldable pub extract_columns : Expr → Outcome ext.Schema → List String → Outcome (List String)
  unfolding nth_name
  extract_columns (column_index i) input accum = do s ← input; n ← nth_name s i; ok (insert n accum)
  extract_columns (column n) input accum = ok (insert n accum)
  extract_columns (binary_expr l op r) input accum = do
    accum' ← extract_columns l input accum
    extract_columns r input accum'
  extract_columns (alias e a) input accum = extract_columns e input accum
  extract_columns (cast e t) input accum = extract_columns e input accum
  extract_columns (literal v) input accum = ok accum
  extract_columns (date_subtract_interval d i) input accum = do
    accum' ← extract_columns d input accum
    extract_columns i input accum'
  extract_columns (date_add_interval d i) input accum = do
    accum' ← extract_columns d input accum
    extract_columns i input accum'
  extract_columns _ input accum =
      err (not_implemented "extract_columns does not support expression")

  unfoldable pub extract_columns_list :
      List Expr → Outcome ext.Schema → List String → Outcome (List String)
  extract_columns_list [] input accum = ok accum
  extract_columns_list (e ∷ es) input accum = do
    accum' ← extract_columns e input accum
    extract_columns_list es input accum'

  unfoldable pub aggregate_args : Expr → Outcome (List Expr)
  aggregate_args (aggregate_function func args distinct fil order nulls) = ok (to_list args)
  aggregate_args _ = err (internal "aggregate_args: expected Expr::AggregateFunction")

  -- The loop over the aggregates of a plan, and over the arguments of each.
  unfoldable pub extract_aggregates :
      List Expr → Outcome ext.Schema → List String → Outcome (List String)
  unfolding aggregate_args
  extract_aggregates [] input accum = ok accum
  extract_aggregates (a ∷ as') input accum = do
    args ← aggregate_args a
    accum' ← extract_columns_list args input accum
    extract_aggregates as' input accum'

  all_names : Outcome ext.Schema → List String → Outcome (List String)
  all_names input accum = do s ← input; ok (extend (map ext.name (ext.fields s)) accum)

  -- A join at the root requests every column of both sides.
  unfoldable pub request_all :
      Outcome ext.Schema → Outcome ext.Schema → List String → Outcome (List String)
  unfolding all_names
  request_all l r accum =
      if is_empty accum then (do accum' ← all_names l accum; all_names r accum') else ok accum

  unfoldable pub insert_keys : List (String × String) → List String → List String
  insert_keys [] accum = accum
  insert_keys ((l, r) ∷ on) accum = insert_keys on (insert r (insert l accum))

  -- The source columns that were requested, sorted.
  unfoldable pub requested : ext.Schema → List String → List String
  requested source accum = sort (keep (contains accum) (map ext.name (ext.fields source)))

  unfoldable pub push_down_scan : TableScan → List String → Outcome TableScan
  push_down_scan s accum = new_scan s.path s.data_source (requested s.data_source.schema accum)

  unfoldable pub push_down : LogicalPlan → List String → Outcome (LogicalPlan × List String)
  push_down (projection input exprs) accum = do
    accum' ← extract_columns_list exprs (schema input) accum
    pushed ← push_down input accum'
    ok (projection pushed.0 exprs, pushed.1)
  push_down (filter input e) accum = do
    accum' ← extract_columns e (schema input) accum
    pushed ← push_down input accum'
    ok (filter pushed.0 e, pushed.1)
  push_down (aggregate input group aggs) accum = do
    accum' ← extract_columns_list group (schema input) accum
    accum'' ← extract_aggregates aggs (schema input) accum'
    pushed ← push_down input accum''
    ok (aggregate pushed.0 group aggs, pushed.1)
  push_down (limit input n) accum = do
    pushed ← push_down input accum
    ok (limit pushed.0 n, pushed.1)
  push_down (join l r join_type on) accum = do
    accum' ← request_all (schema l) (schema r) accum
    left ← push_down l (insert_keys on accum')
    right ← push_down r left.1
    ok (join left.0 right.0 join_type on, right.1)
  push_down (table_scan s) accum = do scan ← push_down_scan s accum; ok (table_scan scan, accum)

  -- `ProjectionPushDownRule::try_optimize`.
  unfoldable pub try_optimize : LogicalPlan → Outcome (Option LogicalPlan)
  try_optimize plan = do pushed ← push_down plan []; ok (some pushed.0)

  abbrev pub unwrap_or : {A : Type 0} → Option A → A → A
  unwrap_or none a = a
  unwrap_or (some b) a = b

  -- `Optimizer::optimize`.
  unfoldable pub optimize : LogicalPlan → Outcome LogicalPlan
  unfolding try_optimize
  optimize plan = do rewritten ← try_optimize plan; ok (unwrap_or rewritten plan)
