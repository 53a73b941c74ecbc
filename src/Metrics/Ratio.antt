-- ===== src/Metrics/Ratio.antt =====
-- `RatioMetrics` of fdapquery-physical-plan/src/metrics.rs: a part of a total, and how two of them
-- merge.
use fdapquery.Base.{ℕ, ◌+◌, Bool, true}
use fdapquery.Metrics.Count.{wrap}

pub data RatioMergeStrategy : Type 0 where
  add_part_add_total add_part_set_total set_part_add_total : RatioMergeStrategy

pub record RatioMetrics : Type 0 where
  pub part : ℕ
  pub total : ℕ
  pub merge_strategy : RatioMergeStrategy
  pub display_raw_values : Bool

unfoldable pub empty : RatioMetrics
empty = record {
  part = 0;
  total = 0;
  merge_strategy = RatioMergeStrategy.add_part_add_total;
  display_raw_values = true;
}

unfoldable pub with_merge_strategy : RatioMetrics → RatioMergeStrategy → RatioMetrics
with_merge_strategy r strategy = record r { merge_strategy = strategy }

unfoldable pub with_display_raw_values : RatioMetrics → Bool → RatioMetrics
with_display_raw_values r display = record r { display_raw_values = display }

unfoldable pub add_part : RatioMetrics → ℕ → RatioMetrics
add_part r n = record r { part = wrap (r.part + n) }

unfoldable pub add_total : RatioMetrics → ℕ → RatioMetrics
add_total r n = record r { total = wrap (r.total + n) }

unfoldable pub set_part : RatioMetrics → ℕ → RatioMetrics
set_part r n = record r { part = n }

unfoldable pub set_total : RatioMetrics → ℕ → RatioMetrics
set_total r n = record r { total = n }

merge_by : RatioMergeStrategy → RatioMetrics → RatioMetrics → RatioMetrics
merge_by RatioMergeStrategy.add_part_add_total r other =
    add_total (add_part r other.part) other.total
merge_by RatioMergeStrategy.add_part_set_total r other =
    set_total (add_part r other.part) other.total
merge_by RatioMergeStrategy.set_part_add_total r other =
    add_total (set_part r other.part) other.total

unfoldable pub merge : RatioMetrics → RatioMetrics → RatioMetrics
unfolding merge_by add_part add_total set_part set_total
merge r other = merge_by r.merge_strategy r other
