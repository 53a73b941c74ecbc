-- ===== src/PhysicalPlanner/Schemas.antt =====
-- The schemas of physical plans (fdapquery/src/physical_planner.rs).
use fdapquery.Base.{
  ℕ, String, ◌≡◌, refl, sym, ap, ◌∙◌, inl, inr, some, List, [], ◌∷◌, is_empty, Bool-cases,
  Option-cases,
}
use fdapquery.External.{External}
use fdapquery.Errors.{
  FdapQueryError, Outcome, ok, err, ◌>>=◌, from_arrow, traverse, bind-eq-ok, ok-injective,
}
use fdapquery.Expr.{Expr}
use fdapquery.Expr.Field.{to_field, has_name}
use fdapquery.Plan
use fdapquery.Plan.{
  LogicalPlan, schema, projection_schema, aggregate_schema, join_schema, expr_fields,
}
use fdapquery.Plan.Scan.{TableSource, TableScan, position, name_position, derive_schema}
use fdapquery.PhysicalPlanner.{
  PhysicalPlan, data_source_exec, physical_schema, position_of, scan_provider, plan_scan,
  create_physical_expr, create_aggregate_expr, create_physical_plan, filter_exec, global_limit_exec,
  as_usize, key_pairs,
}

module _ ⦃ext : External⦄ where
  -- Every scan has the schema that `TableScan::new` derives.
  abbrev pub ScansMade : LogicalPlan → Type 0
  ScansMade (Plan.table_scan s) = derive_schema s.data_source s.projection ≡ ok s.schema
  ScansMade (Plan.projection input es) = ScansMade input
  ScansMade (Plan.filter input e) = ScansMade input
  ScansMade (Plan.aggregate input group aggs) = ScansMade input
  ScansMade (Plan.join l r jt on) = ScansMade l × ScansMade r
  ScansMade (Plan.limit input n) = ScansMade input

  err_ne_ok : {A : Type 0} {e : FdapQueryError} {a : A} → ¬ (err e ≡ ok a)
  err_ne_ok h = cc

  projection_schema_found :
      (es : List Expr) (input : Outcome ext.Schema) (fs : List ext.Field)
      → traverse (λ e. to_field e input) es ≡ ok fs
      → projection_schema es input ≡ ok (ext.new_schema fs)
  unfolding projection_schema expr_fields
  projection_schema_found es input fs h = rw h refl

  name_position_found :
      (message : String → String) (s : ext.Schema) (n : String) (i : ℕ)
      → position_of message s n ≡ ok i
      → name_position s n ≡ ok i
  unfolding position_of name_position
  name_position_found message s n i h = elim (Option-cases (position (has_name n) (ext.fields s))) [
    | inl e ↦ absurd (err_ne_ok (rw e at h))
    | inr (j, e) ↦ rw e (ap ok (ok-injective (rw e at h)))
  ]

  traverse-name_position :
      (message : String → String) (s : ext.Schema) (ns : List String) (is : List ℕ)
      → traverse (position_of message s) ns ≡ ok is
      → traverse (name_position s) ns ≡ ok is
  unfolding traverse
  traverse-name_position message s [] is h = h
  traverse-name_position message s (n ∷ ns) is h =
      let (i, hi, rest) = bind-eq-ok (position_of message s n) _ h in
      let (js, hjs, e) = bind-eq-ok (traverse (position_of message s) ns) _ rest in
      rw (name_position_found message s n i hi, traverse-name_position message s ns js hjs) e

  scan_provider-schema :
      (source : TableSource) (is : List ℕ) (p : PhysicalPlan)
      → scan_provider source (some is) ≡ ok p
      → from_arrow (ext.project source.schema is) ≡ ok (physical_schema p)
  unfolding scan_provider physical_schema
  scan_provider-schema source is p h =
      let (t, ht, e) =
        bind-eq-ok (from_arrow (ext.project source.schema is)) (λ t. ok (data_source_exec t)) h in
      ht ∙ ap (λ p. ok (physical_schema p)) (ok-injective e)

  plan_scan-schema :
      (s : TableScan) (p : PhysicalPlan)
      → plan_scan s ≡ ok p
      → derive_schema s.data_source s.projection ≡ ok (physical_schema p)
  unfolding plan_scan derive_schema physical_schema
  plan_scan-schema s p h = elim (Bool-cases (is_empty s.projection)) [
    | inl e ↦ rw e (ap (λ p. ok (physical_schema p)) (ok-injective (rw e at h)))
    | inr e ↦
        let (is, his, rest) =
          bind-eq-ok (traverse (position_of _ s.data_source.schema) s.projection) _ (rw e at h) in
        rw (e, traverse-name_position _ s.data_source.schema s.projection is his)
          (scan_provider-schema s.data_source is p rest)
  ]

  -- A planned physical plan has the schema of the logical plan that it is made from, whose scans are
  -- made by `TableScan::new`.
  pub physical_schema-create_physical_plan :
      (plan : LogicalPlan) (p : PhysicalPlan)
      → ScansMade plan
      → create_physical_plan plan ≡ ok p
      → schema plan ≡ ok (physical_schema p)
  unfolding create_physical_plan schema physical_schema
  physical_schema-create_physical_plan (Plan.table_scan s) p made h =
      sym made ∙ plan_scan-schema s p h
  physical_schema-create_physical_plan (Plan.filter input e) p made h =
      let (q, hq, rest) =
        bind-eq-ok (create_physical_plan input)
          (λ q. create_physical_expr e (schema input) >>= λ f. ok (filter_exec f q)) h in
      let (f, hf, eq) =
        bind-eq-ok (create_physical_expr e (schema input)) (λ f. ok (filter_exec f q)) rest in
      physical_schema-create_physical_plan input q made hq
      ∙ ap (λ p. ok (physical_schema p)) (ok-injective eq)
  physical_schema-create_physical_plan (Plan.limit input n) p made h =
      let (q, hq, eq) =
        bind-eq-ok (create_physical_plan input)
          (λ q. ok (global_limit_exec q 0 (some (as_usize n)))) h in
      physical_schema-create_physical_plan input q made hq
      ∙ ap (λ p. ok (physical_schema p)) (ok-injective eq)
  physical_schema-create_physical_plan (Plan.projection input es) p made h =
      let (q, hq, rest) = bind-eq-ok (create_physical_plan input) _ h in
      let (ps, hps, rest') =
        bind-eq-ok (traverse (λ e. create_physical_expr e (schema input)) es) _ rest in
      let (fs, hfs, eq) = bind-eq-ok (traverse (λ e. to_field e (schema input)) es) _ rest' in
      projection_schema_found es (schema input) fs hfs
      ∙ ap (λ p. ok (physical_schema p)) (ok-injective eq)
  physical_schema-create_physical_plan (Plan.aggregate input group aggs) p made h =
      let (q, hq, rest) = bind-eq-ok (create_physical_plan input) _ h in
      let (gs, hgs, rest') =
        bind-eq-ok (traverse (λ e. create_physical_expr e (schema input)) group) _ rest in
      let (ts, hts, rest'') =
        bind-eq-ok (traverse (λ a. create_aggregate_expr a (schema input)) aggs) _ rest' in
      let (s, hs, eq) = bind-eq-ok (aggregate_schema group aggs (schema input)) _ rest'' in
      hs ∙ ap (λ p. ok (physical_schema p)) (ok-injective eq)
  physical_schema-create_physical_plan (Plan.join l r jt on) p made h =
      let (lp, hlp, rest1) = bind-eq-ok (create_physical_plan l) _ h in
      let (rp, hrp, rest2) = bind-eq-ok (create_physical_plan r) _ rest1 in
      let (ls, hls, rest3) = bind-eq-ok (schema l) _ rest2 in
      let (rs, hrs, rest4) = bind-eq-ok (schema r) _ rest3 in
      let (lk, hlk, rest5) = bind-eq-ok (traverse _ on) _ rest4 in
      let (rk, hrk, rest6) = bind-eq-ok (traverse _ on) _ rest5 in
      let (pairs, hpairs, rest7) =
        bind-eq-ok (key_pairs (ext.fields ls) (ext.fields rs) lk rk) _ rest6 in
      let (s, hs, eq) = bind-eq-ok (join_schema jt on (schema l) (schema r)) _ rest7 in
      hs ∙ ap (λ p. ok (physical_schema p)) (ok-injective eq)
