-- ===== src/Metrics/Filters.antt =====
-- fdapquery-physical-plan/src/metrics.rs: the filters of `MetricsSet` and the totals.
use fdapquery.Base.{
  true_ne_false, ℕ, ◌≡◌, refl, sym, ◌∙◌, ap, inl, inr, Bool, false, not, List, [], ◌∷◌, Option,
  none, filter, Bool-cases,
}
use fdapquery.Metrics.Timestamp.{Chrono}
use fdapquery.Metrics.Value.{CustomMetricValue, MetricValue, Run, is_timestamp}
use fdapquery.Metrics.Metric.{Metric}
use fdapquery.Metrics.Set
use fdapquery.Metrics.Set.{timestamps_removed}
use fdapquery.Metrics.Sums.{parts, keep_some, word_sum}
use fdapquery.Metrics.Totals.{
  output_rows_of, spill_count_of, spilled_bytes_of, spilled_rows_of, elapsed_compute_of,
  counters-word_sum, elapsed_compute-word_sum,
}

module _ ⦃chrono : Chrono⦄ ⦃dyn : CustomMetricValue⦄ where
  parts-filter :
      (get : MetricValue → Option ℕ) (p : Metric → Bool)
      → ((m : Metric) → p m ≡ false → get m.value ≡ none)
      → (ms : List Metric) → parts get (filter p ms) ≡ parts get ms
  unfolding filter
  parts-filter get p h [] = refl
  parts-filter get p h (m ∷ ms) = elim (Bool-cases (p m)) [
    | inl t ↦ rw t (ap (keep_some (get m.value)) (parts-filter get p h ms))
    | inr f ↦ rw (f, h m f) (parts-filter get p h ms)
  ]

  timed :
      (v : MetricValue)
      → not (is_timestamp v) ≡ false
      → (output_rows_of v ≡ none)
        × (spill_count_of v ≡ none)
        × (spilled_bytes_of v ≡ none)
        × (spilled_rows_of v ≡ none)
        × (elapsed_compute_of v ≡ none)
  unfolding is_timestamp
  timed (MetricValue.start_timestamp t) h = (refl, refl, refl, refl, refl)
  timed (MetricValue.end_timestamp t) h = (refl, refl, refl, refl, refl)
  timed _ h = absurd (true_ne_false h)

  -- Removing the timestamps changes no total.
  pub totals-timestamps_removed :
      (ms : List Metric)
      → (Set.output_rows (timestamps_removed ms) ≡ Set.output_rows ms)
        × (Set.spill_count (timestamps_removed ms) ≡ Set.spill_count ms)
        × (Set.spilled_bytes (timestamps_removed ms) ≡ Set.spilled_bytes ms)
        × (Set.spilled_rows (timestamps_removed ms) ≡ Set.spilled_rows ms)
        × (Set.elapsed_compute (timestamps_removed ms) ≡ Set.elapsed_compute ms)
  unfolding timestamps_removed
  totals-timestamps_removed ms =
      let kept = λ (m : Metric). not (is_timestamp m.value) in
      let (a, b, c, d) = counters-word_sum ms in
      let (a', b', c', d') = counters-word_sum (filter kept ms) in
      let total = λ (ns : List ℕ). Run.done (word_sum ns) in
      (
        a' ∙ ap total (parts-filter output_rows_of kept (λ m h. (timed m.value h).0) ms) ∙ sym a,
        b' ∙ ap total (parts-filter spill_count_of kept (λ m h. (timed m.value h).1) ms) ∙ sym b,
        c' ∙ ap total (parts-filter spilled_bytes_of kept (λ m h. (timed m.value h).2) ms) ∙ sym c,
        d' ∙ ap total (parts-filter spilled_rows_of kept (λ m h. (timed m.value h).3) ms) ∙ sym d,
        elapsed_compute-word_sum (filter kept ms)
            ∙ ap total (parts-filter elapsed_compute_of kept (λ m h. (timed m.value h).4) ms)
            ∙ sym (elapsed_compute-word_sum ms),
      )
