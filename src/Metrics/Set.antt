-- ===== src/Metrics/Set.antt =====
-- `MetricsSet` of fdapquery-physical-plan/src/metrics.rs: filters, sums and the aggregation by name.
-- A shared `Arc` of a metric is its value at the time of the call. The hash map that
-- `aggregate_by_name` fills is an association list, and `into_values` stands for its order.
use fdapquery.Base.{
  ℕ, String, Bool, true, false, not, Option, none, some, List, [], ◌∷◌, filter, is_empty, text_eq,
  if◌then◌else◌,
}
use mathlib.Core.Option
use fdapquery.Metrics.Timestamp.{Chrono}
use fdapquery.Metrics.Value.{
  CustomMetricValue, MetricValue, Run, ◌>>=◌, name, as_usize, new_empty, aggregate, is_timestamp,
}
use fdapquery.Metrics.Metric
use fdapquery.Metrics.Metric.{
  Metric, MetricType, MetricCategory, with_type, with_category, same_type, same_category,
}

-- `Iterator::any`, as in `slice::contains`.
abbrev pub any {ℓ} : {A : Type ℓ} → (A → Bool) → List A → Bool
any p [] = false
any p (x ∷ xs) = if p x then true else any p xs

abbrev pub unwrap_or {ℓ} : {A : Type ℓ} → Option A → A → A
unwrap_or none d = d
unwrap_or (some a) d = a

module _ ⦃chrono : Chrono⦄ ⦃dyn : CustomMetricValue⦄ where
  -- `for_each(|m| accum.aggregate(m.value()))`.
  unfoldable pub aggregate_all : MetricValue → List Metric → Run MetricValue
  aggregate_all accum [] = Run.done accum
  aggregate_all accum (m ∷ ms) = do a ← aggregate accum m.value; aggregate_all a ms

  unfoldable pub sum_matching : List Metric → Run (Option MetricValue)
  sum_matching [] = Run.done none
  sum_matching (m ∷ ms) = do a ← aggregate_all (new_empty m.value) (m ∷ ms); Run.done (some a)

  unfoldable pub sum : List Metric → (Metric → Bool) → Run (Option MetricValue)
  unfolding sum_matching
  sum ms f = sum_matching (filter f ms)

  unfoldable pub total : List Metric → (MetricValue → Bool) → Run (Option ℕ)
  total ms f = do v ← sum ms (λ m. f m.value); Run.done (Option.map as_usize v)

  abbrev pub is_output_rows : MetricValue → Bool
  is_output_rows (MetricValue.output_rows c) = true
  is_output_rows _ = false

  abbrev pub is_spill_count : MetricValue → Bool
  is_spill_count (MetricValue.spill_count c) = true
  is_spill_count _ = false

  abbrev pub is_spilled_bytes : MetricValue → Bool
  is_spilled_bytes (MetricValue.spilled_bytes c) = true
  is_spilled_bytes _ = false

  abbrev pub is_spilled_rows : MetricValue → Bool
  is_spilled_rows (MetricValue.spilled_rows c) = true
  is_spilled_rows _ = false

  abbrev pub is_elapsed_compute : MetricValue → Bool
  is_elapsed_compute (MetricValue.elapsed_compute t) = true
  is_elapsed_compute _ = false

  unfoldable pub output_rows : List Metric → Run (Option ℕ)
  unfolding total
  output_rows ms = total ms is_output_rows

  unfoldable pub spill_count : List Metric → Run (Option ℕ)
  unfolding total
  spill_count ms = total ms is_spill_count

  unfoldable pub spilled_bytes : List Metric → Run (Option ℕ)
  unfolding total
  spilled_bytes ms = total ms is_spilled_bytes

  unfoldable pub spilled_rows : List Metric → Run (Option ℕ)
  unfolding total
  spilled_rows ms = total ms is_spilled_rows

  unfoldable pub elapsed_compute : List Metric → Run (Option ℕ)
  unfolding total
  elapsed_compute ms = total ms is_elapsed_compute

  -- The metrics that `sum_by_name` adds: those whose operator chose the name.
  unfoldable pub is_named : String → MetricValue → Bool
  is_named n (MetricValue.count m c) = text_eq m n
  is_named n (MetricValue.time m t) = text_eq m n
  is_named n (MetricValue.gauge m g) = text_eq m n
  is_named n (MetricValue.peak_memory_usage m g) = text_eq m n
  is_named n (MetricValue.pruning_metrics m p) = text_eq m n
  is_named n (MetricValue.ratio m r) = text_eq m n
  is_named n _ = false

  unfoldable pub sum_by_name : List Metric → String → Run (Option MetricValue)
  unfolding is_named
  sum_by_name ms n = sum ms (λ m. is_named n m.value)

  -- `if let Some(cat) = … { accum = accum.with_category(cat) }`.
  abbrev pub with_category_of : Option MetricCategory → Metric → Metric
  with_category_of none accum = accum
  with_category_of (some cat) accum = with_category accum cat

  -- The first entry of a name: a metric without partition or labels.
  unfoldable pub first_of_name : Metric → Run Metric
  first_of_name m = do
    a ← aggregate (new_empty m.value) m.value
    Run.done (with_category_of m.metric_category (with_type (Metric.new a none) m.metric_type))

  -- `map.get_mut(key)`, updated, or `map.insert(key, accum)`.
  unfoldable pub add_entry : Metric → List (String × Metric) → Run (List (String × Metric))
  unfolding first_of_name
  add_entry m [] = do accum ← first_of_name m; Run.done ((name m.value, accum) ∷ [])
  add_entry m ((k, accum) ∷ entries) =
      let rest = add_entry m entries in
      if text_eq k (name m.value)
      then (aggregate accum.value m.value
          >>= (λ v. Run.done ((k, record accum { value = v }) ∷ entries)))
      else (rest >>= (λ es. Run.done ((k, accum) ∷ es)))

  unfoldable pub add_entries : List Metric → List (String × Metric) → Run (List (String × Metric))
  unfolding add_entry
  add_entries [] entries = Run.done entries
  add_entries (m ∷ ms) entries = do es ← add_entry m entries; add_entries ms es

  unfoldable pub aggregate_by_name :
      (into_values : List (String × Metric) → List Metric) → List Metric → Run (List Metric)
  unfolding add_entries
  aggregate_by_name into_values ms = do entries ← add_entries ms []; Run.done (into_values entries)

  unfoldable pub timestamps_removed : List Metric → List Metric
  timestamps_removed ms = filter (λ m. not (is_timestamp m.value)) ms

  unfoldable pub filter_by_metric_types : List Metric → List MetricType → List Metric
  filter_by_metric_types ms allowed =
      if is_empty allowed then [] else filter (λ m. any (same_type m.metric_type) allowed) ms

  unfoldable pub filter_by_categories : List Metric → List MetricCategory → List Metric
  filter_by_categories ms allowed =
      if is_empty allowed
      then []
      else filter
          (λ m.
            any (same_category (unwrap_or m.metric_category MetricCategory.uncategorized)) allowed)
          ms
