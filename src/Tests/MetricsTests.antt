-- ===== src/Tests/MetricsTests.antt =====
-- The theorems about metrics at concrete inputs.
use mathlib.Core.List.Permᴰ
use fdapquery.Base.{
  ℕ, String, ◌≡◌, refl, List, [], ◌∷◌, true, false, ◌+◌, none, some, ℤ, ltb, arith, All, ◌↔◌, ◌⊎◌,
  map,
}
use fdapquery.Metrics.Timestamp.{Chrono, Timestamp, update_to_min, update_to_max}
use fdapquery.Metrics.Value.{CustomMetricValue, MetricValue, Run, name, new_empty, aggregate}
use fdapquery.Metrics.Metric
use fdapquery.Metrics.Metric.{Metric}
use fdapquery.Metrics.Set
use fdapquery.Metrics.Set.{
  any, sum, sum_matching, aggregate_all, first_of_name, with_category_of, add_entry, add_entries,
  aggregate_by_name,
}
use fdapquery.Metrics.Kinds.{SameKind, aggregate-cases}
use fdapquery.Metrics.Set.{timestamps_removed}
use fdapquery.Metrics.Filters.{totals-timestamps_removed}
use fdapquery.Metrics.Units.{aggregate-new_empty}
use fdapquery.Metrics.Moments.{Earliest, Latest, update_order_free}
use fdapquery.Metrics.Totals.{counters-word_sum, elapsed_compute-word_sum}
use fdapquery.Metrics.ByName.{has_name}
use fdapquery.Metrics.Coherent.{Coherent}
use fdapquery.Metrics.Aggregated.{
  Distinct, Unordered, aggregate_by_name-done_iff, aggregate_by_name-sum,
}

ltb_irrefl : (a : ℕ) → ltb a a ≡ false
ltb_irrefl a = ground arith

ltb_trans : (a b c : ℕ) → ltb a b ≡ true → ltb b c ≡ true → ltb a c ≡ true
ltb_trans a b c h k = ground arith

ltb_total : (a b : ℕ) → ltb a b ≡ false → ltb b a ≡ false → a ≡ b
ltb_total a b h k = ground arith

-- Moments as nanoseconds since the epoch.
instance abbrev clock : Chrono
clock = record {
  DateTime = ℕ;
  before = ltb;
  timestamp_nanos_opt = λ n. some (ℤ.pos n);
  before_irrefl = ltb_irrefl;
  before_trans = ltb_trans;
  before_total = ltb_total;
}

-- A custom metric that keeps a number.
instance abbrev number : CustomMetricValue
number = record { Value = ℕ; new_empty = λ v. 0; aggregate = λ v w. v + w; as_usize = λ v. v }

abbrev rows : ℕ → ℕ → Metric
unfolding Metric.new Metric.new_with_labels
rows partition n = Metric.new (MetricValue.output_rows (record { value = n })) (some partition)

abbrev spilled : ℕ → ℕ → Metric
unfolding Metric.new Metric.new_with_labels
spilled partition n = Metric.new (MetricValue.spill_count (record { value = n })) (some partition)

abbrev elapsed : ℕ → ℕ → Metric
unfolding Metric.new Metric.new_with_labels
elapsed partition n =
    Metric.new (MetricValue.elapsed_compute (record { nanos = n })) (some partition)

abbrev two_partitions : List Metric
unfolding rows spilled elapsed
two_partitions = rows 0 3 ∷ elapsed 0 0 ∷ rows 1 4 ∷ elapsed 1 20 ∷ []

-- The hash map read in the order of insertion.
abbrev in_order : List (String × Metric) → List Metric
in_order es = map (λ e. e.1) es

in_order-Unordered : Unordered in_order
in_order-Unordered es = Permᴰ.refl (map (λ e. e.1) es)

counters-word_sum_example :
    (Set.output_rows two_partitions ≡ Run.done (some 7))
    × (Set.spill_count two_partitions ≡ Run.done none)
    × (Set.spilled_bytes two_partitions ≡ Run.done none)
    × (Set.spilled_rows two_partitions ≡ Run.done none)
unfolding two_partitions
counters-word_sum_example = counters-word_sum two_partitions

-- A time that was never recorded counts as a nanosecond.
elapsed_compute-word_sum_example : Set.elapsed_compute two_partitions ≡ Run.done (some 21)
unfolding two_partitions
elapsed_compute-word_sum_example = elapsed_compute-word_sum two_partitions

aggregate-cases_example :
    let v = MetricValue.output_rows (record { value = 2 }) in
    let o = MetricValue.spill_count (record { value = 2 }) in
    (SameKind v o
      × ((r : MetricValue) × (aggregate v o ≡ Run.done r) × (SameKind v r) × (name r ≡ name v)))
    ⊎ ((¬ SameKind v o) × (aggregate v o ≡ Run.panics))
aggregate-cases_example =
    aggregate-cases (MetricValue.output_rows (record { value = 2 }))
      (MetricValue.spill_count (record { value = 2 }))

aggregate_by_name-done_iff_example :
    ((out : List Metric) × (aggregate_by_name in_order two_partitions ≡ Run.done out))
    ↔ Coherent two_partitions
aggregate_by_name-done_iff_example = aggregate_by_name-done_iff in_order two_partitions

abbrev totals : List Metric
unfolding Metric.new Metric.new_with_labels
totals =
    Metric.new (MetricValue.output_rows (record { value = 7 })) none
    ∷ Metric.new (MetricValue.elapsed_compute (record { nanos = 21 })) none
    ∷ []

aggregated : aggregate_by_name in_order two_partitions ≡ Run.done totals
unfolding aggregate_by_name two_partitions totals aggregate new_empty name Metric.with_type
aggregated = refl

aggregate_by_name-sum_example :
    ((n : String) → any (has_name n) totals ≡ any (has_name n) two_partitions)
    × Distinct totals
    × All (λ a. sum two_partitions (has_name (name a.value)) ≡ Run.done (some a.value)) totals
aggregate_by_name-sum_example =
    aggregate_by_name-sum in_order two_partitions totals in_order-Unordered aggregated

update_order_free_example :
    let s : Timestamp = record { timestamp = some 5 } in
    let t : Timestamp = record { timestamp = some 3 } in
    let u : Timestamp = record { timestamp = none } in
    Earliest (some 5) (some 3) (update_to_min s t).timestamp
    × Latest (some 5) (some 3) (update_to_max s t).timestamp
    × (update_to_min s t ≡ update_to_min t s)
    × (update_to_min (update_to_min s t) u ≡ update_to_min s (update_to_min t u))
    × (update_to_max s t ≡ update_to_max t s)
    × (update_to_max (update_to_max s t) u ≡ update_to_max s (update_to_max t u))
update_order_free_example =
    update_order_free (record { timestamp = some 5 }) (record { timestamp = some 3 })
      (record { timestamp = none })

aggregate-new_empty_example :
    aggregate
      (new_empty (MetricValue.elapsed_compute (record { nanos = 20 })))
      (MetricValue.elapsed_compute (record { nanos = 20 }))
    ≡ Run.done (MetricValue.elapsed_compute (record { nanos = 20 }))
aggregate-new_empty_example =
    aggregate-new_empty (MetricValue.elapsed_compute (record { nanos = 20 }))
      (omega arith, omega arith)

abbrev started : List Metric
unfolding Metric.new Metric.new_with_labels two_partitions
started =
    Metric.new (MetricValue.start_timestamp (record { timestamp = some 5 })) none ∷ two_partitions

totals-timestamps_removed_example :
    (Set.output_rows (timestamps_removed started) ≡ Set.output_rows started)
    × (Set.spill_count (timestamps_removed started) ≡ Set.spill_count started)
    × (Set.spilled_bytes (timestamps_removed started) ≡ Set.spilled_bytes started)
    × (Set.spilled_rows (timestamps_removed started) ≡ Set.spilled_rows started)
    × (Set.elapsed_compute (timestamps_removed started) ≡ Set.elapsed_compute started)
totals-timestamps_removed_example = totals-timestamps_removed started
