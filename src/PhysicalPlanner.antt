-- ===== src/PhysicalPlanner.antt =====
-- fdapquery/src/physical_planner.rs: a logical plan lowered to a physical one. The tables are those
-- whose `scan` is that of fdapquery-catalog/src/in_memory_data_source.rs.
pub mod Types
pub mod Schemas
pub mod Joins
use fdapquery.Base.{
  ℕ, zero, suc, ◌+◌, ◌-◌, ◌^◌, ℤ, pos, negsuc, String, Bool, true, false, Option, none, some, List,
  [], ◌∷◌, map, text_eq, concat, decimal, get_elem?, length, is_empty, if◌then◌else◌,
}
use fdapquery.Base.Names.{contains}
use fdapquery.External.{External}
use fdapquery.Errors.{
  Outcome, ok, err, panic, ◌>>=◌, ok_or, from_arrow, traverse, schema_error, internal,
  not_implemented,
}
use fdapquery.Expr
use fdapquery.Expr.{Expr, Exprs, nil, cons, AggregateFunctionKind}
use fdapquery.Expr.Field.{to_field, has_name}
use fdapquery.PhysicalExpr
use fdapquery.PhysicalExpr.{PhysicalExpr, AggregateExpr}
use fdapquery.Plan
use fdapquery.Plan.{LogicalPlan, JoinType, schema, duplicate_keys}
use fdapquery.Plan.Scan.{TableSource, TableScan, position}

module _ ⦃ext : External⦄ where
  -- The physical operators that the planner makes, each with the fields that it sets.
  pub data PhysicalPlan : Type 0 where
    data_source_exec : (schema : ext.Schema) → PhysicalPlan
    filter_exec : PhysicalExpr → PhysicalPlan → PhysicalPlan
    projection_exec : List PhysicalExpr → PhysicalPlan → ext.Schema → PhysicalPlan
    aggregate_exec :
        (group_by : List (PhysicalExpr × String))
        → List AggregateExpr
        → PhysicalPlan
        → (input_schema schema : ext.Schema) → PhysicalPlan
    global_limit_exec : PhysicalPlan → (skip : ℕ) → (fetch : Option ℕ) → PhysicalPlan
    hash_join_exec :
        (left right : PhysicalPlan)
        → (on : List (PhysicalExpr × PhysicalExpr)) → JoinType
        → (join_schema : ext.Schema) → (right_columns_to_exclude : List ℕ) → PhysicalPlan

  -- `ExecutionPlan::schema`.
  unfoldable pub physical_schema : PhysicalPlan → ext.Schema
  physical_schema (data_source_exec s) = s
  physical_schema (filter_exec e input) = physical_schema input
  physical_schema (projection_exec es input s) = s
  physical_schema (aggregate_exec group aggs input input_schema s) = s
  physical_schema (global_limit_exec input skip fetch) = physical_schema input
  physical_schema (hash_join_exec l r on jt s excluded) = s

  -- `Column::new(fields[i].name(), i)`.
  column_at : List ext.Field → ℕ → Outcome PhysicalExpr
  column_at fs i = elim (get_elem? fs i) [
    | none ↦ panic "index out of bounds"
    | some f ↦ ok (PhysicalExpr.column (ext.name f) i)
  ]

  unfoldable pub create_physical_expr : Expr → Outcome ext.Schema → Outcome PhysicalExpr
  unfolding column_at
  create_physical_expr (Expr.literal v) input = ok (PhysicalExpr.literal v)
  create_physical_expr (Expr.date_subtract_interval d i) input = do
    date ← create_physical_expr d input
    interval ← create_physical_expr i input
    ok (PhysicalExpr.date_subtract_interval_expr date interval)
  create_physical_expr (Expr.date_add_interval d i) input = do
    date ← create_physical_expr d input
    interval ← create_physical_expr i input
    ok (PhysicalExpr.date_add_interval_expr date interval)
  create_physical_expr (Expr.column_index i) input = do s ← input; column_at (ext.fields s) i
  create_physical_expr (Expr.column n) input = do
    s ← input
    i ←
        ok_or (position (has_name n) (ext.fields s))
          (schema_error (concat ("no column named '" ∷ n ∷ "'" ∷ [])))
    ok (PhysicalExpr.column n i)
  create_physical_expr (Expr.alias e a) input = create_physical_expr e input
  create_physical_expr (Expr.cast e t) input = do
    p ← create_physical_expr e input
    ok (PhysicalExpr.cast_expr p t)
  create_physical_expr (Expr.binary_expr l op r) input = do
    left ← create_physical_expr l input
    right ← create_physical_expr r input
    ok (PhysicalExpr.binary_expr left op right)
  create_physical_expr (Expr.not e) input = err (not_implemented "NOT is not supported")
  create_physical_expr (Expr.scalar_function n args t) input =
      err (not_implemented (concat ("scalar function '" ∷ n ∷ "' is not supported" ∷ [])))
  create_physical_expr (Expr.aggregate_function func args distinct fil order nulls) input = err (
      internal
        "an aggregate cannot be planned as a scalar expression; aggregates are lowered by the Aggregate operator")

  aggregate_of : AggregateFunctionKind → PhysicalExpr → AggregateExpr
  aggregate_of AggregateFunctionKind.max p = AggregateExpr.max_expr p
  aggregate_of AggregateFunctionKind.min p = AggregateExpr.min_expr p
  aggregate_of AggregateFunctionKind.sum p = AggregateExpr.sum_expr p
  aggregate_of AggregateFunctionKind.avg p = AggregateExpr.avg_expr p
  aggregate_of AggregateFunctionKind.count p = AggregateExpr.count_expr p

  unfoldable pub create_aggregate_expr : Expr → Outcome ext.Schema → Outcome AggregateExpr
  unfolding aggregate_of
  create_aggregate_expr (Expr.aggregate_function func (cons arg args) distinct fil order nulls)
        input =
      create_physical_expr arg input >>= λ phys_arg.
      if distinct
      then err (not_implemented "COUNT(DISTINCT ...) is not supported")
      else ok (aggregate_of func phys_arg)
  create_aggregate_expr (Expr.aggregate_function func nil distinct fil order nulls) input =
      err (internal "create_aggregate_expr: AggregateFunction has no argument expressions")
  create_aggregate_expr _ input =
      err (internal "create_aggregate_expr: expected Expr::AggregateFunction")

  -- A name's position in a schema.
  position_of : (message : String → String) → ext.Schema → String → Outcome ℕ
  position_of message s n = ok_or (position (has_name n) (ext.fields s)) (schema_error (message n))

  -- `TableProvider::scan`: the plan's schema is the table's, or its projection.
  unfoldable pub scan_provider : TableSource → Option (List ℕ) → Outcome PhysicalPlan
  scan_provider source none = ok (data_source_exec source.schema)
  scan_provider source (some indices) = do
    projected_schema ← from_arrow (ext.project source.schema indices)
    ok (data_source_exec projected_schema)

  unfoldable pub plan_scan : TableScan → Outcome PhysicalPlan
  unfolding scan_provider position_of
  plan_scan s =
      if is_empty s.projection
      then scan_provider s.data_source none
      else traverse
          (position_of
            (λ n.
              concat
                ("DefaultPhysicalPlanner: projection column '" ∷ n ∷ "' not in source schema" ∷ []))
            s.data_source.schema)
          s.projection
        >>= λ indices. scan_provider s.data_source (some indices)

  -- The right columns with the name of a key that both sides have, from a position on.
  unfoldable pub excluded_from : List String → ℕ → List ext.Field → List ℕ
  excluded_from duplicates i [] = []
  excluded_from duplicates i (f ∷ fs) =
      let rest = excluded_from duplicates (i + 1) fs in
      if contains duplicates (ext.name f) then i ∷ rest else rest

  -- The zip of the keys of both sides.
  key_pairs :
      (left right : List ext.Field) → List ℕ → List ℕ → Outcome (List (PhysicalExpr × PhysicalExpr))
  unfolding column_at
  key_pairs left right [] rs = ok []
  key_pairs left right (l ∷ ls) [] = ok []
  key_pairs left right (l ∷ ls) (r ∷ rs) = do
    lc ← column_at left l
    rc ← column_at right r
    rest ← key_pairs left right ls rs
    ok ((lc, rc) ∷ rest)

  -- `i64 as usize`.
  unfoldable pub as_usize : ℤ → ℕ
  as_usize (pos n) = n
  as_usize (negsuc n) = 2 ^ 64 - 1 - n

  with_alias : PhysicalExpr → PhysicalExpr × String
  with_alias e = (e, PhysicalExpr.to_string e)

  unfoldable pub create_physical_plan : LogicalPlan → Outcome PhysicalPlan
  unfolding plan_scan position_of key_pairs with_alias
  create_physical_plan (Plan.table_scan s) = plan_scan s
  create_physical_plan (Plan.filter input e) = do
    p ← create_physical_plan input
    filter_expr ← create_physical_expr e (schema input)
    ok (filter_exec filter_expr p)
  create_physical_plan (Plan.projection input exprs) = do
    p ← create_physical_plan input
    projection_expr ← traverse (λ e. create_physical_expr e (schema input)) exprs
    fs ← traverse (λ e. to_field e (schema input)) exprs
    ok (projection_exec projection_expr p (ext.new_schema fs))
  create_physical_plan (Plan.aggregate input group aggs) = do
    p ← create_physical_plan input
    group_expr ← traverse (λ e. create_physical_expr e (schema input)) group
    aggregate_expr ← traverse (λ a. create_aggregate_expr a (schema input)) aggs
    s ← schema (Plan.aggregate input group aggs)
    ok (aggregate_exec (map with_alias group_expr) aggregate_expr p (physical_schema p) s)
  create_physical_plan (Plan.limit input n) = do
    p ← create_physical_plan input
    ok (global_limit_exec p 0 (some (as_usize n)))
  create_physical_plan (Plan.join l r jt on) = do
    left_plan ← create_physical_plan l
    right_plan ← create_physical_plan r
    left_schema ← schema l
    right_schema ← schema r
    left_keys ←
        traverse
          (λ k.
            position_of (λ n. concat ("no column named '" ∷ n ∷ "' in left input" ∷ [])) left_schema
              k.0)
          on
    right_keys ←
        traverse
          (λ k.
            position_of (λ n. concat ("no column named '" ∷ n ∷ "' in right input" ∷ []))
              right_schema k.1)
          on
    pairs ← key_pairs (ext.fields left_schema) (ext.fields right_schema) left_keys right_keys
    join_schema ← schema (Plan.join l r jt on)
    ok (
        hash_join_exec left_plan right_plan pairs jt join_schema
          (excluded_from (duplicate_keys on) 0 (ext.fields right_schema)))
