-- ===== src/Metrics/Value.antt =====
-- `MetricValue` of fdapquery-physical-plan/src/metrics.rs: the kinds of metrics, and how the values
-- of two partitions aggregate. Custom metrics are the implementors of a trait.
use fdapquery.Base.{
  ℕ, ◌-◌, ◌^◌, suc, String, Bool, true, false, none, some, ℤ, text_eq, if◌then◌else◌,
}
use fdapquery.Metrics.Count
use fdapquery.Metrics.Count.{Count, wrap}
use fdapquery.Metrics.Gauge
use fdapquery.Metrics.Gauge.{Gauge}
use fdapquery.Metrics.Time
use fdapquery.Metrics.Time.{Time}
use fdapquery.Metrics.Timestamp
use fdapquery.Metrics.Timestamp.{Chrono, Timestamp, update_to_min, update_to_max}
use fdapquery.Metrics.Pruning
use fdapquery.Metrics.Pruning.{PruningMetrics, add_pruned, add_matched, add_fully_matched}
use fdapquery.Metrics.Ratio
use fdapquery.Metrics.Ratio.{RatioMetrics, merge, with_merge_strategy, with_display_raw_values}

-- The trait `CustomMetricValue`: its implementor, and the methods that aggregation calls.
pub record CustomMetricValue : Type 1 where
  pub Value : Type 0
  pub new_empty : Value → Value
  pub aggregate : Value → Value → Value
  pub as_usize : Value → ℕ

-- The outcome of code that may panic.
pub data Run (A : Type 0) : Type 0 where
  done : A → Run A
  panics : Run A

infixl 5 ◌>>=◌
abbrev pub ◌>>=◌ : {A B : Type 0} → Run A → (A → Run B) → Run B
done a >>= f = f a
panics >>= f = panics

-- `n as usize` of an `i64`.
to_usize : ℤ → ℕ
to_usize (ℤ.pos n) = wrap n
to_usize (ℤ.negsuc n) = 2 ^ 64 - suc n

module _ ⦃chrono : Chrono⦄ ⦃dyn : CustomMetricValue⦄ where
  pub data MetricValue : Type 0 where
    output_rows spill_count spilled_bytes output_bytes : Count → MetricValue
    output_batches spilled_rows : Count → MetricValue
    elapsed_compute : Time → MetricValue
    current_memory_usage : Gauge → MetricValue
    count : String → Count → MetricValue
    gauge peak_memory_usage : String → Gauge → MetricValue
    time : String → Time → MetricValue
    start_timestamp end_timestamp : Timestamp → MetricValue
    pruning_metrics : String → PruningMetrics → MetricValue
    ratio : String → RatioMetrics → MetricValue
    custom : String → dyn.Value → MetricValue

  unfoldable pub name : MetricValue → String
  name (output_rows c) = "output_rows"
  name (spill_count c) = "spill_count"
  name (spilled_bytes c) = "spilled_bytes"
  name (output_bytes c) = "output_bytes"
  name (output_batches c) = "output_batches"
  name (spilled_rows c) = "spilled_rows"
  name (elapsed_compute t) = "elapsed_compute"
  name (current_memory_usage g) = "mem_used"
  name (count n c) = n
  name (gauge n g) = n
  name (peak_memory_usage n g) = n
  name (time n t) = n
  name (start_timestamp t) = "start_timestamp"
  name (end_timestamp t) = "end_timestamp"
  name (pruning_metrics n p) = n
  name (ratio n r) = n
  name (custom n v) = n

  nanos_or_zero : Timestamp → ℕ
  nanos_or_zero t = elim t.timestamp [
    | none ↦ 0
    | some v ↦ elim (chrono.timestamp_nanos_opt v) [ none ↦ 0 | some n ↦ to_usize n ]
  ]

  unfoldable pub as_usize : MetricValue → ℕ
  unfolding nanos_or_zero to_usize
  as_usize (output_rows c) = c.value
  as_usize (spill_count c) = c.value
  as_usize (spilled_bytes c) = c.value
  as_usize (output_bytes c) = c.value
  as_usize (output_batches c) = c.value
  as_usize (spilled_rows c) = c.value
  as_usize (elapsed_compute t) = t.nanos
  as_usize (current_memory_usage g) = g.value
  as_usize (count n c) = c.value
  as_usize (gauge n g) = g.value
  as_usize (peak_memory_usage n g) = g.value
  as_usize (time n t) = t.nanos
  as_usize (start_timestamp t) = nanos_or_zero t
  as_usize (end_timestamp t) = nanos_or_zero t
  as_usize (pruning_metrics n p) = 0
  as_usize (ratio n r) = 0
  as_usize (custom n v) = dyn.as_usize v

  unfoldable pub new_empty : MetricValue → MetricValue
  unfolding Count.empty Gauge.empty Time.empty Timestamp.empty Pruning.empty Ratio.empty
      with_merge_strategy with_display_raw_values
  new_empty (output_rows c) = output_rows Count.empty
  new_empty (spill_count c) = spill_count Count.empty
  new_empty (spilled_bytes c) = spilled_bytes Count.empty
  new_empty (output_bytes c) = output_bytes Count.empty
  new_empty (output_batches c) = output_batches Count.empty
  new_empty (spilled_rows c) = spilled_rows Count.empty
  new_empty (elapsed_compute t) = elapsed_compute Time.empty
  new_empty (current_memory_usage g) = current_memory_usage Gauge.empty
  new_empty (count n c) = count n Count.empty
  new_empty (gauge n g) = gauge n Gauge.empty
  new_empty (peak_memory_usage n g) = peak_memory_usage n Gauge.empty
  new_empty (time n t) = time n Time.empty
  new_empty (start_timestamp t) = start_timestamp Timestamp.empty
  new_empty (end_timestamp t) = end_timestamp Timestamp.empty
  new_empty (pruning_metrics n p) = pruning_metrics n Pruning.empty
  new_empty (ratio n r) = ratio n (
      with_display_raw_values (with_merge_strategy Ratio.empty r.merge_strategy)
        r.display_raw_values)
  new_empty (custom n v) = custom n (dyn.new_empty v)

  add_pruning : PruningMetrics → PruningMetrics → PruningMetrics
  add_pruning p o =
      add_fully_matched (add_matched (add_pruned p o.pruned) o.matched) o.fully_matched

  unfoldable pub aggregate : MetricValue → MetricValue → Run MetricValue
  unfolding Count.add Gauge.add Time.add update_to_min update_to_max add_pruning add_pruned
      add_matched add_fully_matched merge
  aggregate (output_rows c) (output_rows o) = done (output_rows (Count.add c o.value))
  aggregate (spill_count c) (spill_count o) = done (spill_count (Count.add c o.value))
  aggregate (spilled_bytes c) (spilled_bytes o) = done (spilled_bytes (Count.add c o.value))
  aggregate (output_bytes c) (output_bytes o) = done (output_bytes (Count.add c o.value))
  aggregate (output_batches c) (output_batches o) = done (output_batches (Count.add c o.value))
  aggregate (spilled_rows c) (spilled_rows o) = done (spilled_rows (Count.add c o.value))
  aggregate (count n c) (count m o) = done (count n (Count.add c o.value))
  aggregate (current_memory_usage g) (current_memory_usage o) =
      done (current_memory_usage (Gauge.add g o.value))
  aggregate (gauge n g) (gauge m o) = done (gauge n (Gauge.add g o.value))
  aggregate (peak_memory_usage n g) (peak_memory_usage m o) =
      done (peak_memory_usage n (Gauge.add g o.value))
  aggregate (elapsed_compute t) (elapsed_compute o) = done (elapsed_compute (Time.add t o))
  aggregate (time n t) (time m o) = done (time n (Time.add t o))
  aggregate (start_timestamp t) (start_timestamp o) = done (start_timestamp (update_to_min t o))
  aggregate (end_timestamp t) (end_timestamp o) = done (end_timestamp (update_to_max t o))
  aggregate (pruning_metrics n p) (pruning_metrics m o) = done (pruning_metrics n (add_pruning p o))
  aggregate (ratio n r) (ratio m o) = done (ratio n (merge r o))
  aggregate (custom n v) (custom m o) = done (custom n (dyn.aggregate v o))
  aggregate _ _ = panics

  pruning_sort_key : String → ℕ
  pruning_sort_key n =
      if text_eq n "files_ranges_pruned_statistics"
      then 4
      else if text_eq n "row_groups_pruned_statistics"
      then 5
      else if text_eq n "row_groups_pruned_bloom_filter"
      then 6
      else if text_eq n "page_index_pages_pruned"
      then 7
      else if text_eq n "page_index_rows_pruned"
      then 8
      else 9

  unfoldable pub display_sort_key : MetricValue → ℕ
  unfolding pruning_sort_key
  display_sort_key (output_rows c) = 0
  display_sort_key (elapsed_compute t) = 1
  display_sort_key (output_bytes c) = 2
  display_sort_key (output_batches c) = 3
  display_sort_key (pruning_metrics n p) = pruning_sort_key n
  display_sort_key (spill_count c) = 10
  display_sort_key (spilled_bytes c) = 11
  display_sort_key (spilled_rows c) = 12
  display_sort_key (current_memory_usage g) = 13
  display_sort_key (count n c) =
      if text_eq n "page_index_pages_skipped_by_fully_matched" then 8 else 14
  display_sort_key (peak_memory_usage n g) = 13
  display_sort_key (gauge n g) = 15
  display_sort_key (time n t) = 16
  display_sort_key (ratio n r) = 17
  display_sort_key (start_timestamp t) = 18
  display_sort_key (end_timestamp t) = 19
  display_sort_key (custom n v) = 20

  unfoldable pub is_timestamp : MetricValue → Bool
  is_timestamp (start_timestamp t) = true
  is_timestamp (end_timestamp t) = true
  is_timestamp _ = false
