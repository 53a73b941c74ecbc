-- ===== src/Plan.antt =====
-- fdapquery-expr/src/logical_plan.rs, projection.rs, filter.rs, aggregate.rs, join.rs, limit.rs:
-- logical plans, and the schema of each operator's output.
pub mod Scan
pub mod Display
use fdapquery.Base.{
  String, Bool, true, false, not, List, [], ◌∷◌, ◌++◌, map, text_eq, if◌then◌else◌, filter as keep,
  ℤ,
}
use fdapquery.Base.Names.{contains}
use fdapquery.External.{External}
use fdapquery.Errors.{Outcome, ok, panic, ◌>>=◌, traverse}
use fdapquery.Expr.{Expr}
use fdapquery.Expr.Field.{to_field}
use Scan.{TableScan}

pub data JoinType : Type 0 where
  inner left right full left_semi right_semi left_anti right_anti left_mark right_mark : JoinType

module _ ⦃ext : External⦄ where
  pub data LogicalPlan : Type 0 where
    table_scan : TableScan → LogicalPlan
    projection : LogicalPlan → List Expr → LogicalPlan
    filter : LogicalPlan → Expr → LogicalPlan
    aggregate : LogicalPlan → List Expr → List Expr → LogicalPlan
    join : LogicalPlan → LogicalPlan → JoinType → List (String × String) → LogicalPlan
    limit : LogicalPlan → ℤ → LogicalPlan

  -- The output fields of expressions over an input, in order.
  unfoldable pub expr_fields : List Expr → Outcome ext.Schema → Outcome (List ext.Field)
  unfolding traverse
  expr_fields exprs input = traverse (λ e. to_field e input) exprs

  unfoldable pub projection_schema : List Expr → Outcome ext.Schema → Outcome ext.Schema
  projection_schema exprs input = do fs ← expr_fields exprs input; ok (ext.new_schema fs)

  unfoldable pub aggregate_schema : List Expr → List Expr → Outcome ext.Schema → Outcome ext.Schema
  aggregate_schema group aggs input = do
    group_fields ← expr_fields group input
    agg_fields ← expr_fields aggs input
    ok (ext.new_schema (group_fields ++ agg_fields))

  -- The names that a pair of join keys has on both sides.
  unfoldable pub duplicate_keys : List (String × String) → List String
  duplicate_keys on = map (λ k. k.0) (keep (λ k. text_eq k.0 k.1) on)

  abbrev pub is_kept : List String → ext.Field → Bool
  is_kept duplicates f = not (contains duplicates (ext.name f))

  unfoldable pub join_fields :
      JoinType → List String → List ext.Field → List ext.Field → Outcome (List ext.Field)
  join_fields JoinType.inner dup ls rs = ok (ls ++ keep (is_kept dup) rs)
  join_fields JoinType.left dup ls rs = ok (ls ++ keep (is_kept dup) rs)
  join_fields JoinType.right dup ls rs = ok (keep (is_kept dup) ls ++ rs)
  join_fields _ dup ls rs = panic "Join::schema is not yet emitted by fdapquery's logical planner"

  unfoldable pub join_schema :
      JoinType
      → List (String × String)
      → Outcome ext.Schema
      → Outcome ext.Schema
      → Outcome ext.Schema
  join_schema join_type on l r = do
    left_schema ← l
    right_schema ← r
    fs ←
        join_fields join_type (duplicate_keys on) (ext.fields left_schema) (ext.fields right_schema)
    ok (ext.new_schema fs)

  unfoldable pub schema : LogicalPlan → Outcome ext.Schema
  schema (table_scan s) = ok s.schema
  schema (projection input exprs) = projection_schema exprs (schema input)
  schema (filter input e) = schema input
  schema (aggregate input group aggs) = aggregate_schema group aggs (schema input)
  schema (join l r join_type on) = join_schema join_type on (schema l) (schema r)
  schema (limit input n) = schema input

  unfoldable pub children : LogicalPlan → List LogicalPlan
  children (table_scan s) = []
  children (projection input exprs) = input ∷ []
  children (filter input e) = input ∷ []
  children (aggregate input group aggs) = input ∷ []
  children (join l r join_type on) = l ∷ r ∷ []
  children (limit input n) = input ∷ []
