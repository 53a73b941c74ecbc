-- ===== src/Metrics/Totals.antt =====
-- fdapquery-physical-plan/src/metrics.rs: `MetricsSet::output_rows` and the other totals.
use fdapquery.Base.{ℕ, ◌≡◌, refl, ◌⊎◌, inl, inr, List, true, false, Option, none, some}
use fdapquery.Metrics.Timestamp.{Chrono}
use fdapquery.Metrics.Count
use fdapquery.Metrics.Count.{Count, wrap}
use fdapquery.Metrics.Time
use fdapquery.Metrics.Time.{Time, at_least_one}
use fdapquery.Metrics.Value.{CustomMetricValue, MetricValue, Run, new_empty, aggregate, as_usize}
use fdapquery.Metrics.Metric.{Metric}
use fdapquery.Metrics.Set
use fdapquery.Metrics.Set.{
  sum, total, is_output_rows, is_spill_count, is_spilled_bytes, is_spilled_rows, is_elapsed_compute,
}
use fdapquery.Metrics.Sums.{WordKind, word_sum, parts, sum_matching-filter}

module _ ⦃chrono : Chrono⦄ ⦃dyn : CustomMetricValue⦄ where
  abbrev pub output_rows_of : MetricValue → Option ℕ
  output_rows_of (MetricValue.output_rows c) = some (c.value)
  output_rows_of _ = none

  classify_output_rows :
      (v : MetricValue)
      → ((is_output_rows v ≡ false) × (output_rows_of v ≡ none))
        ⊎ ((n : ℕ) × (v ≡ MetricValue.output_rows (record { value = n }))
            × (is_output_rows v ≡ true)
            × (output_rows_of v ≡ some (n)))
  classify_output_rows (MetricValue.output_rows c) = inr (c.value, refl, refl, refl)
  classify_output_rows _ = inl (refl, refl)

  abbrev output_rows_kind : WordKind
  unfolding aggregate new_empty as_usize Count.add Count.empty
  output_rows_kind = record {
    is = is_output_rows;
    make = λ n. MetricValue.output_rows (record { value = n });
    weight = λ n. n;
    get = output_rows_of;
    classify = classify_output_rows;
    aggregate-make = λ a b. refl;
    new_empty-make = λ a. refl;
    as_usize-make = λ a. refl;
  }

  abbrev pub spill_count_of : MetricValue → Option ℕ
  spill_count_of (MetricValue.spill_count c) = some (c.value)
  spill_count_of _ = none

  classify_spill_count :
      (v : MetricValue)
      → ((is_spill_count v ≡ false) × (spill_count_of v ≡ none))
        ⊎ ((n : ℕ) × (v ≡ MetricValue.spill_count (record { value = n }))
            × (is_spill_count v ≡ true)
            × (spill_count_of v ≡ some (n)))
  classify_spill_count (MetricValue.spill_count c) = inr (c.value, refl, refl, refl)
  classify_spill_count _ = inl (refl, refl)

  abbrev spill_count_kind : WordKind
  unfolding aggregate new_empty as_usize Count.add Count.empty
  spill_count_kind = record {
    is = is_spill_count;
    make = λ n. MetricValue.spill_count (record { value = n });
    weight = λ n. n;
    get = spill_count_of;
    classify = classify_spill_count;
    aggregate-make = λ a b. refl;
    new_empty-make = λ a. refl;
    as_usize-make = λ a. refl;
  }

  abbrev pub spilled_bytes_of : MetricValue → Option ℕ
  spilled_bytes_of (MetricValue.spilled_bytes c) = some (c.value)
  spilled_bytes_of _ = none

  classify_spilled_bytes :
      (v : MetricValue)
      → ((is_spilled_bytes v ≡ false) × (spilled_bytes_of v ≡ none))
        ⊎ ((n : ℕ) × (v ≡ MetricValue.spilled_bytes (record { value = n }))
            × (is_spilled_bytes v ≡ true)
            × (spilled_bytes_of v ≡ some (n)))
  classify_spilled_bytes (MetricValue.spilled_bytes c) = inr (c.value, refl, refl, refl)
  classify_spilled_bytes _ = inl (refl, refl)

  abbrev spilled_bytes_kind : WordKind
  unfolding aggregate new_empty as_usize Count.add Count.empty
  spilled_bytes_kind = record {
    is = is_spilled_bytes;
    make = λ n. MetricValue.spilled_bytes (record { value = n });
    weight = λ n. n;
    get = spilled_bytes_of;
    classify = classify_spilled_bytes;
    aggregate-make = λ a b. refl;
    new_empty-make = λ a. refl;
    as_usize-make = λ a. refl;
  }

  abbrev pub spilled_rows_of : MetricValue → Option ℕ
  spilled_rows_of (MetricValue.spilled_rows c) = some (c.value)
  spilled_rows_of _ = none

  classify_spilled_rows :
      (v : MetricValue)
      → ((is_spilled_rows v ≡ false) × (spilled_rows_of v ≡ none))
        ⊎ ((n : ℕ) × (v ≡ MetricValue.spilled_rows (record { value = n }))
            × (is_spilled_rows v ≡ true)
            × (spilled_rows_of v ≡ some (n)))
  classify_spilled_rows (MetricValue.spilled_rows c) = inr (c.value, refl, refl, refl)
  classify_spilled_rows _ = inl (refl, refl)

  abbrev spilled_rows_kind : WordKind
  unfolding aggregate new_empty as_usize Count.add Count.empty
  spilled_rows_kind = record {
    is = is_spilled_rows;
    make = λ n. MetricValue.spilled_rows (record { value = n });
    weight = λ n. n;
    get = spilled_rows_of;
    classify = classify_spilled_rows;
    aggregate-make = λ a b. refl;
    new_empty-make = λ a. refl;
    as_usize-make = λ a. refl;
  }

  abbrev pub elapsed_compute_of : MetricValue → Option ℕ
  elapsed_compute_of (MetricValue.elapsed_compute c) = some (at_least_one (wrap c.nanos))
  elapsed_compute_of _ = none

  classify_elapsed_compute :
      (v : MetricValue)
      → ((is_elapsed_compute v ≡ false) × (elapsed_compute_of v ≡ none))
        ⊎ ((n : ℕ) × (v ≡ MetricValue.elapsed_compute (record { nanos = n }))
            × (is_elapsed_compute v ≡ true)
            × (elapsed_compute_of v ≡ some (at_least_one (wrap n))))
  classify_elapsed_compute (MetricValue.elapsed_compute c) = inr (c.nanos, refl, refl, refl)
  classify_elapsed_compute _ = inl (refl, refl)

  abbrev elapsed_compute_kind : WordKind
  unfolding aggregate new_empty as_usize Time.add Time.add_duration Time.empty
  elapsed_compute_kind = record {
    is = is_elapsed_compute;
    make = λ n. MetricValue.elapsed_compute (record { nanos = n });
    weight = λ n. at_least_one (wrap n);
    get = elapsed_compute_of;
    classify = classify_elapsed_compute;
    aggregate-make = λ a b. refl;
    new_empty-make = λ a. refl;
    as_usize-make = λ a. refl;
  }

  -- Rows, spills, spilled bytes and spilled rows: no total where no metric counts them, and the sum
  -- of the counters modulo 2^64 otherwise. None of the four panics.
  pub counters-word_sum :
      (ms : List Metric)
      → (Set.output_rows ms ≡ Run.done (word_sum (parts output_rows_of ms)))
        × (Set.spill_count ms ≡ Run.done (word_sum (parts spill_count_of ms)))
        × (Set.spilled_bytes ms ≡ Run.done (word_sum (parts spilled_bytes_of ms)))
        × (Set.spilled_rows ms ≡ Run.done (word_sum (parts spilled_rows_of ms)))
  unfolding Set.output_rows Set.spill_count Set.spilled_bytes Set.spilled_rows total sum
      output_rows_kind spill_count_kind spilled_bytes_kind spilled_rows_kind
  counters-word_sum ms = (
    sum_matching-filter output_rows_kind ms,
    sum_matching-filter spill_count_kind ms,
    sum_matching-filter spilled_bytes_kind ms,
    sum_matching-filter spilled_rows_kind ms,
  )

  -- The time of a set: no total where no metric measures one, and otherwise the sum modulo 2^64 of
  -- the times, where a time of 0 counts as 1 nanosecond. It never panics.
  pub elapsed_compute-word_sum :
      (ms : List Metric)
      → Set.elapsed_compute ms ≡ Run.done (word_sum (parts elapsed_compute_of ms))
  unfolding Set.elapsed_compute total sum elapsed_compute_kind
  elapsed_compute-word_sum ms = sum_matching-filter elapsed_compute_kind ms
