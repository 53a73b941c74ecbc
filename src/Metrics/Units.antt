-- ===== src/Metrics/Units.antt =====
-- fdapquery-physical-plan/src/metrics.rs: `MetricValue::new_empty` under `aggregate`.
use fdapquery.Base.{ℕ, ◌+◌, ◌^◌, ◌<◌, ◌≤◌, ◌≡◌, refl, ap, Option, none, some, Bool, arith}
use fdapquery.Metrics.Timestamp
use fdapquery.Metrics.Timestamp.{Chrono, min_of, max_of, update_to_min, update_to_max}
use fdapquery.Metrics.Count.{wrap}
use fdapquery.Metrics.Time.{at_least_one}
use fdapquery.Metrics.Ratio
use fdapquery.Metrics.Ratio.{RatioMetrics, RatioMergeStrategy, merge}
use fdapquery.Metrics.Value.{CustomMetricValue, MetricValue, Run, new_empty, aggregate}

-- A `usize`.
abbrev pub IsWord : ℕ → Type 0
IsWord n = n < 2 ^ 64

wrap_word : (n : ℕ) → IsWord n → wrap (0 + n) ≡ n
wrap_word n h = omega arith

time_word : (n : ℕ) → IsWord n → 1 ≤ n → wrap (0 + at_least_one (wrap n)) ≡ n
time_word n h one = ground arith

merge-empty :
    (strategy : RatioMergeStrategy) (part total : ℕ) (display : Bool)
    → IsWord part
    → IsWord total
    → let r : RatioMetrics = record {
      part = part;
      total = total;
      merge_strategy = strategy;
      display_raw_values = display;
    } in
      merge (record r { part = 0; total = 0 }) r ≡ r
unfolding merge
merge-empty RatioMergeStrategy.add_part_add_total part total display h k =
    rw (wrap_word part h, wrap_word total k) refl
merge-empty RatioMergeStrategy.add_part_set_total part total display h k =
    rw (wrap_word part h) refl
merge-empty RatioMergeStrategy.set_part_add_total part total display h k =
    rw (wrap_word total k) refl

module _ ⦃chrono : Chrono⦄ ⦃dyn : CustomMetricValue⦄ where
  min_of-none : (o : Option chrono.DateTime) → min_of none o ≡ o
  min_of-none none = refl
  min_of-none (some v) = refl

  max_of-none : (o : Option chrono.DateTime) → max_of none o ≡ o
  max_of-none none = refl
  max_of-none (some v) = refl

  -- The numbers of a value are machine words, and a time has been recorded. Custom values are left
  -- to their implementors.
  abbrev pub InRange : MetricValue → Type 0
  InRange (MetricValue.output_rows c) = IsWord c.value
  InRange (MetricValue.spill_count c) = IsWord c.value
  InRange (MetricValue.spilled_bytes c) = IsWord c.value
  InRange (MetricValue.output_bytes c) = IsWord c.value
  InRange (MetricValue.output_batches c) = IsWord c.value
  InRange (MetricValue.spilled_rows c) = IsWord c.value
  InRange (MetricValue.elapsed_compute t) = IsWord t.nanos × (1 ≤ t.nanos)
  InRange (MetricValue.current_memory_usage g) = IsWord g.value
  InRange (MetricValue.count n c) = IsWord c.value
  InRange (MetricValue.gauge n g) = IsWord g.value
  InRange (MetricValue.peak_memory_usage n g) = IsWord g.value
  InRange (MetricValue.time n t) = IsWord t.nanos × (1 ≤ t.nanos)
  InRange (MetricValue.start_timestamp t) = Unit
  InRange (MetricValue.end_timestamp t) = Unit
  InRange (MetricValue.pruning_metrics n p) =
      IsWord p.pruned × IsWord p.matched × IsWord p.fully_matched
  InRange (MetricValue.ratio n r) = IsWord r.part × IsWord r.total
  InRange (MetricValue.custom n v) = ⊥

  -- `new_empty` is a unit: aggregating a value into the empty value of its variant gives the value,
  -- where its numbers are machine words and, for a time, not 0.
  pub aggregate-new_empty : (v : MetricValue) → InRange v → aggregate (new_empty v) v ≡ Run.done v
  unfolding aggregate new_empty update_to_min update_to_max Timestamp.empty Ratio.empty
      Ratio.with_display_raw_values Ratio.with_merge_strategy
  aggregate-new_empty (MetricValue.output_rows c) h = rw (wrap_word c.value h) refl
  aggregate-new_empty (MetricValue.spill_count c) h = rw (wrap_word c.value h) refl
  aggregate-new_empty (MetricValue.spilled_bytes c) h = rw (wrap_word c.value h) refl
  aggregate-new_empty (MetricValue.output_bytes c) h = rw (wrap_word c.value h) refl
  aggregate-new_empty (MetricValue.output_batches c) h = rw (wrap_word c.value h) refl
  aggregate-new_empty (MetricValue.spilled_rows c) h = rw (wrap_word c.value h) refl
  aggregate-new_empty (MetricValue.elapsed_compute t) (h, k) = rw (time_word t.nanos h k) refl
  aggregate-new_empty (MetricValue.current_memory_usage g) h = rw (wrap_word g.value h) refl
  aggregate-new_empty (MetricValue.count n c) h = rw (wrap_word c.value h) refl
  aggregate-new_empty (MetricValue.gauge n g) h = rw (wrap_word g.value h) refl
  aggregate-new_empty (MetricValue.peak_memory_usage n g) h = rw (wrap_word g.value h) refl
  aggregate-new_empty (MetricValue.time n t) (h, k) = rw (time_word t.nanos h k) refl
  aggregate-new_empty (MetricValue.start_timestamp t) h =
      ap (λ o. Run.done (MetricValue.start_timestamp (record { timestamp = o })))
        (min_of-none t.timestamp)
  aggregate-new_empty (MetricValue.end_timestamp t) h =
      ap (λ o. Run.done (MetricValue.end_timestamp (record { timestamp = o })))
        (max_of-none t.timestamp)
  aggregate-new_empty (MetricValue.pruning_metrics n p) (h, k, l) =
      rw (wrap_word p.pruned h, wrap_word p.matched k, wrap_word p.fully_matched l) refl
  aggregate-new_empty (MetricValue.ratio n r) (h, k) =
      ap (λ m. Run.done (MetricValue.ratio n m))
        (merge-empty r.merge_strategy r.part r.total r.display_raw_values h k)
  aggregate-new_empty (MetricValue.custom n v) h = absurd h
