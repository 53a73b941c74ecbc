-- ===== src/Plan/Display.antt =====
-- `Display` of logical plans and `format` of fdapquery-expr/src/logical_plan.rs: one line for each
-- operator, indented by its depth.
use fdapquery.Base.{
  ℕ, zero, suc, String, List, [], ◌∷◌, map, is_empty, if◌then◌else◌, concat, join, decimal_ℤ,
}
use fdapquery.External.{External}
use fdapquery.Expr.Display.{to_string}
use fdapquery.Plan.{LogicalPlan, JoinType, table_scan, projection, filter, aggregate, limit}
use fdapquery.Plan.Scan.{TableScan}

join_type_text : JoinType → String
join_type_text JoinType.inner = "Inner"
join_type_text JoinType.left = "Left"
join_type_text JoinType.right = "Right"
join_type_text JoinType.full = "Full"
join_type_text JoinType.left_semi = "LeftSemi"
join_type_text JoinType.right_semi = "RightSemi"
join_type_text JoinType.left_anti = "LeftAnti"
join_type_text JoinType.right_anti = "RightAnti"
join_type_text JoinType.left_mark = "LeftMark"
join_type_text JoinType.right_mark = "RightMark"

tabs : ℕ → List String
tabs zero = []
tabs (suc n) = "\t" ∷ tabs n

module _ ⦃ext : External⦄ where
  scan_text : TableScan → String
  scan_text s =
      if is_empty s.projection
      then concat ("TableScan: " ∷ s.path ∷ "; projection=None" ∷ [])
      else concat ("TableScan: " ∷ s.path ∷ "; projection=[" ∷ join ", " s.projection ∷ "]" ∷ [])

  key_text : String × String → String
  key_text (l, r) = concat ("(" ∷ l ∷ ", " ∷ r ∷ ")" ∷ [])

  -- The line of one operator.
  plan_text : LogicalPlan → String
  unfolding scan_text key_text join_type_text
  plan_text (table_scan s) = scan_text s
  plan_text (projection input exprs) =
      concat ("Projection: " ∷ join ", " (map to_string exprs) ∷ [])
  plan_text (filter input e) = concat ("Filter: " ∷ to_string e ∷ [])
  plan_text (aggregate input group aggs) = concat (
      "Aggregate: groupExpr=["
      ∷ join ", " (map to_string group)
      ∷ "], aggregateExpr=["
      ∷ join ", " (map to_string aggs)
      ∷ "]"
      ∷ [])
  plan_text (LogicalPlan.join l r join_type on) =
      concat (
        "Join: type="
        ∷ join_type_text join_type
        ∷ ", on=["
        ∷ join ", " (map key_text on)
        ∷ "]"
        ∷ [])
  plan_text (limit input n) = concat ("Limit: " ∷ decimal_ℤ n ∷ [])

  line : LogicalPlan → ℕ → String
  unfolding plan_text tabs
  line plan indent = concat (concat (tabs indent) ∷ plan_text plan ∷ "\n" ∷ [])

  format_indent : LogicalPlan → ℕ → String
  unfolding line
  format_indent (table_scan s) n = line (table_scan s) n
  format_indent (projection input exprs) n =
      concat (line (projection input exprs) n ∷ format_indent input (suc n) ∷ [])
  format_indent (filter input e) n =
      concat (line (filter input e) n ∷ format_indent input (suc n) ∷ [])
  format_indent (aggregate input group aggs) n =
      concat (line (aggregate input group aggs) n ∷ format_indent input (suc n) ∷ [])
  format_indent (LogicalPlan.join l r join_type on) n = concat (
      line (LogicalPlan.join l r join_type on) n
      ∷ format_indent l (suc n)
      ∷ format_indent r (suc n)
      ∷ [])
  format_indent (limit input k) n =
      concat (line (limit input k) n ∷ format_indent input (suc n) ∷ [])

  unfoldable pub format : LogicalPlan → String
  unfolding format_indent
  format plan = format_indent plan 0
