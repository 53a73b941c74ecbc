-- ===== src/Metrics/Kinds.antt =====
-- fdapquery-physical-plan/src/metrics.rs: which metric values aggregate with one another.
use fdapquery.Base.{String, ◌≡◌, refl, sym, ◌∙◌, ◌⊎◌, arith, inl, inr}
use fdapquery.Metrics.Timestamp.{Chrono, Timestamp}
use fdapquery.Metrics.Count.{Count}
use fdapquery.Metrics.Gauge.{Gauge}
use fdapquery.Metrics.Time.{Time}
use fdapquery.Metrics.Pruning.{PruningMetrics}
use fdapquery.Metrics.Ratio.{RatioMetrics}
use fdapquery.Metrics.Value.{CustomMetricValue, MetricValue, Run, name, new_empty, aggregate}

pub done_or_panics : {A : Type 0} {a : A} → ¬ (Run.done a ≡ Run.panics)
done_or_panics h = ground arith

module _ ⦃chrono : Chrono⦄ ⦃dyn : CustomMetricValue⦄ where
  -- Two values of one variant.
  pub data SameKind : MetricValue → MetricValue → Type 0 where
    output_rows : (a b : Count) → SameKind (MetricValue.output_rows a) (MetricValue.output_rows b)
    spill_count : (a b : Count) → SameKind (MetricValue.spill_count a) (MetricValue.spill_count b)
    spilled_bytes :
        (a b : Count) → SameKind (MetricValue.spilled_bytes a) (MetricValue.spilled_bytes b)
    output_bytes :
        (a b : Count) → SameKind (MetricValue.output_bytes a) (MetricValue.output_bytes b)
    output_batches :
        (a b : Count) → SameKind (MetricValue.output_batches a) (MetricValue.output_batches b)
    spilled_rows :
        (a b : Count) → SameKind (MetricValue.spilled_rows a) (MetricValue.spilled_rows b)
    elapsed_compute :
        (a b : Time) → SameKind (MetricValue.elapsed_compute a) (MetricValue.elapsed_compute b)
    current_memory_usage :
        (a b : Gauge)
        → SameKind (MetricValue.current_memory_usage a) (MetricValue.current_memory_usage b)
    count : (n m : String) (a b : Count) → SameKind (MetricValue.count n a) (MetricValue.count m b)
    gauge : (n m : String) (a b : Gauge) → SameKind (MetricValue.gauge n a) (MetricValue.gauge m b)
    peak_memory_usage :
        (n m : String) (a b : Gauge)
        → SameKind (MetricValue.peak_memory_usage n a) (MetricValue.peak_memory_usage m b)
    time : (n m : String) (a b : Time) → SameKind (MetricValue.time n a) (MetricValue.time m b)
    start_timestamp :
        (a b : Timestamp) → SameKind (MetricValue.start_timestamp a) (MetricValue.start_timestamp b)
    end_timestamp :
        (a b : Timestamp) → SameKind (MetricValue.end_timestamp a) (MetricValue.end_timestamp b)
    pruning_metrics :
        (n m : String) (a b : PruningMetrics)
        → SameKind (MetricValue.pruning_metrics n a) (MetricValue.pruning_metrics m b)
    ratio :
        (n m : String) (a b : RatioMetrics)
        → SameKind (MetricValue.ratio n a) (MetricValue.ratio m b)
    custom :
        (n m : String) (a b : dyn.Value)
        → SameKind (MetricValue.custom n a) (MetricValue.custom m b)

  -- What aggregation with a value of the same variant gives: a value of that variant and name.
  pub aggregate-SameKind :
      {v o : MetricValue}
      → SameKind v o
      → (r : MetricValue) × (aggregate v o ≡ Run.done r) × (SameKind v r) × (name r ≡ name v)
  unfolding aggregate name
  aggregate-SameKind (SameKind.output_rows a b) = (_, refl, SameKind.output_rows a _, refl)
  aggregate-SameKind (SameKind.spill_count a b) = (_, refl, SameKind.spill_count a _, refl)
  aggregate-SameKind (SameKind.spilled_bytes a b) = (_, refl, SameKind.spilled_bytes a _, refl)
  aggregate-SameKind (SameKind.output_bytes a b) = (_, refl, SameKind.output_bytes a _, refl)
  aggregate-SameKind (SameKind.output_batches a b) = (_, refl, SameKind.output_batches a _, refl)
  aggregate-SameKind (SameKind.spilled_rows a b) = (_, refl, SameKind.spilled_rows a _, refl)
  aggregate-SameKind (SameKind.elapsed_compute a b) = (_, refl, SameKind.elapsed_compute a _, refl)
  aggregate-SameKind (SameKind.current_memory_usage a b) =
      (_, refl, SameKind.current_memory_usage a _, refl)
  aggregate-SameKind (SameKind.count n m a b) = (_, refl, SameKind.count n n a _, refl)
  aggregate-SameKind (SameKind.gauge n m a b) = (_, refl, SameKind.gauge n n a _, refl)
  aggregate-SameKind (SameKind.peak_memory_usage n m a b) =
      (_, refl, SameKind.peak_memory_usage n n a _, refl)
  aggregate-SameKind (SameKind.time n m a b) = (_, refl, SameKind.time n n a _, refl)
  aggregate-SameKind (SameKind.start_timestamp a b) = (_, refl, SameKind.start_timestamp a _, refl)
  aggregate-SameKind (SameKind.end_timestamp a b) = (_, refl, SameKind.end_timestamp a _, refl)
  aggregate-SameKind (SameKind.pruning_metrics n m a b) =
      (_, refl, SameKind.pruning_metrics n n a _, refl)
  aggregate-SameKind (SameKind.ratio n m a b) = (_, refl, SameKind.ratio n n a _, refl)
  aggregate-SameKind (SameKind.custom n m a b) = (_, refl, SameKind.custom n n a _, refl)

  pub SameKind-refl : (v : MetricValue) → SameKind v v
  SameKind-refl (MetricValue.output_rows a) = SameKind.output_rows a a
  SameKind-refl (MetricValue.spill_count a) = SameKind.spill_count a a
  SameKind-refl (MetricValue.spilled_bytes a) = SameKind.spilled_bytes a a
  SameKind-refl (MetricValue.output_bytes a) = SameKind.output_bytes a a
  SameKind-refl (MetricValue.output_batches a) = SameKind.output_batches a a
  SameKind-refl (MetricValue.spilled_rows a) = SameKind.spilled_rows a a
  SameKind-refl (MetricValue.elapsed_compute a) = SameKind.elapsed_compute a a
  SameKind-refl (MetricValue.current_memory_usage a) = SameKind.current_memory_usage a a
  SameKind-refl (MetricValue.count n a) = SameKind.count n n a a
  SameKind-refl (MetricValue.gauge n a) = SameKind.gauge n n a a
  SameKind-refl (MetricValue.peak_memory_usage n a) = SameKind.peak_memory_usage n n a a
  SameKind-refl (MetricValue.time n a) = SameKind.time n n a a
  SameKind-refl (MetricValue.start_timestamp a) = SameKind.start_timestamp a a
  SameKind-refl (MetricValue.end_timestamp a) = SameKind.end_timestamp a a
  SameKind-refl (MetricValue.pruning_metrics n a) = SameKind.pruning_metrics n n a a
  SameKind-refl (MetricValue.ratio n a) = SameKind.ratio n n a a
  SameKind-refl (MetricValue.custom n a) = SameKind.custom n n a a

  pub SameKind-sym : {v o : MetricValue} → SameKind v o → SameKind o v
  SameKind-sym (SameKind.output_rows a b) = SameKind.output_rows b a
  SameKind-sym (SameKind.spill_count a b) = SameKind.spill_count b a
  SameKind-sym (SameKind.spilled_bytes a b) = SameKind.spilled_bytes b a
  SameKind-sym (SameKind.output_bytes a b) = SameKind.output_bytes b a
  SameKind-sym (SameKind.output_batches a b) = SameKind.output_batches b a
  SameKind-sym (SameKind.spilled_rows a b) = SameKind.spilled_rows b a
  SameKind-sym (SameKind.elapsed_compute a b) = SameKind.elapsed_compute b a
  SameKind-sym (SameKind.current_memory_usage a b) = SameKind.current_memory_usage b a
  SameKind-sym (SameKind.count n m a b) = SameKind.count m n b a
  SameKind-sym (SameKind.gauge n m a b) = SameKind.gauge m n b a
  SameKind-sym (SameKind.peak_memory_usage n m a b) = SameKind.peak_memory_usage m n b a
  SameKind-sym (SameKind.time n m a b) = SameKind.time m n b a
  SameKind-sym (SameKind.start_timestamp a b) = SameKind.start_timestamp b a
  SameKind-sym (SameKind.end_timestamp a b) = SameKind.end_timestamp b a
  SameKind-sym (SameKind.pruning_metrics n m a b) = SameKind.pruning_metrics m n b a
  SameKind-sym (SameKind.ratio n m a b) = SameKind.ratio m n b a
  SameKind-sym (SameKind.custom n m a b) = SameKind.custom m n b a

  pub SameKind-new_empty : (v : MetricValue) → SameKind (new_empty v) v
  unfolding new_empty
  SameKind-new_empty (MetricValue.output_rows a) = SameKind.output_rows _ a
  SameKind-new_empty (MetricValue.spill_count a) = SameKind.spill_count _ a
  SameKind-new_empty (MetricValue.spilled_bytes a) = SameKind.spilled_bytes _ a
  SameKind-new_empty (MetricValue.output_bytes a) = SameKind.output_bytes _ a
  SameKind-new_empty (MetricValue.output_batches a) = SameKind.output_batches _ a
  SameKind-new_empty (MetricValue.spilled_rows a) = SameKind.spilled_rows _ a
  SameKind-new_empty (MetricValue.elapsed_compute a) = SameKind.elapsed_compute _ a
  SameKind-new_empty (MetricValue.current_memory_usage a) = SameKind.current_memory_usage _ a
  SameKind-new_empty (MetricValue.count n a) = SameKind.count n n _ a
  SameKind-new_empty (MetricValue.gauge n a) = SameKind.gauge n n _ a
  SameKind-new_empty (MetricValue.peak_memory_usage n a) = SameKind.peak_memory_usage n n _ a
  SameKind-new_empty (MetricValue.time n a) = SameKind.time n n _ a
  SameKind-new_empty (MetricValue.start_timestamp a) = SameKind.start_timestamp _ a
  SameKind-new_empty (MetricValue.end_timestamp a) = SameKind.end_timestamp _ a
  SameKind-new_empty (MetricValue.pruning_metrics n a) = SameKind.pruning_metrics n n _ a
  SameKind-new_empty (MetricValue.ratio n a) = SameKind.ratio n n _ a
  SameKind-new_empty (MetricValue.custom n a) = SameKind.custom n n _ a

  pub name-new_empty : (v : MetricValue) → name (new_empty v) ≡ name v
  unfolding new_empty name
  name-new_empty (MetricValue.output_rows a) = refl
  name-new_empty (MetricValue.spill_count a) = refl
  name-new_empty (MetricValue.spilled_bytes a) = refl
  name-new_empty (MetricValue.output_bytes a) = refl
  name-new_empty (MetricValue.output_batches a) = refl
  name-new_empty (MetricValue.spilled_rows a) = refl
  name-new_empty (MetricValue.elapsed_compute a) = refl
  name-new_empty (MetricValue.current_memory_usage a) = refl
  name-new_empty (MetricValue.count n a) = refl
  name-new_empty (MetricValue.gauge n a) = refl
  name-new_empty (MetricValue.peak_memory_usage n a) = refl
  name-new_empty (MetricValue.time n a) = refl
  name-new_empty (MetricValue.start_timestamp a) = refl
  name-new_empty (MetricValue.end_timestamp a) = refl
  name-new_empty (MetricValue.pruning_metrics n a) = refl
  name-new_empty (MetricValue.ratio n a) = refl
  name-new_empty (MetricValue.custom n a) = refl

  pub SameKind-or-panics : (v o : MetricValue) → SameKind v o ⊎ (aggregate v o ≡ Run.panics)
  unfolding aggregate
  SameKind-or-panics (MetricValue.output_rows a) (MetricValue.output_rows b) =
      inl (SameKind.output_rows a b)
  SameKind-or-panics (MetricValue.spill_count a) (MetricValue.spill_count b) =
      inl (SameKind.spill_count a b)
  SameKind-or-panics (MetricValue.spilled_bytes a) (MetricValue.spilled_bytes b) =
      inl (SameKind.spilled_bytes a b)
  SameKind-or-panics (MetricValue.output_bytes a) (MetricValue.output_bytes b) =
      inl (SameKind.output_bytes a b)
  SameKind-or-panics (MetricValue.output_batches a) (MetricValue.output_batches b) =
      inl (SameKind.output_batches a b)
  SameKind-or-panics (MetricValue.spilled_rows a) (MetricValue.spilled_rows b) =
      inl (SameKind.spilled_rows a b)
  SameKind-or-panics (MetricValue.elapsed_compute a) (MetricValue.elapsed_compute b) =
      inl (SameKind.elapsed_compute a b)
  SameKind-or-panics (MetricValue.current_memory_usage a) (MetricValue.current_memory_usage b) =
      inl (SameKind.current_memory_usage a b)
  SameKind-or-panics (MetricValue.count n a) (MetricValue.count m b) = inl (SameKind.count n m a b)
  SameKind-or-panics (MetricValue.gauge n a) (MetricValue.gauge m b) = inl (SameKind.gauge n m a b)
  SameKind-or-panics (MetricValue.peak_memory_usage n a) (MetricValue.peak_memory_usage m b) =
      inl (SameKind.peak_memory_usage n m a b)
  SameKind-or-panics (MetricValue.time n a) (MetricValue.time m b) = inl (SameKind.time n m a b)
  SameKind-or-panics (MetricValue.start_timestamp a) (MetricValue.start_timestamp b) =
      inl (SameKind.start_timestamp a b)
  SameKind-or-panics (MetricValue.end_timestamp a) (MetricValue.end_timestamp b) =
      inl (SameKind.end_timestamp a b)
  SameKind-or-panics (MetricValue.pruning_metrics n a) (MetricValue.pruning_metrics m b) =
      inl (SameKind.pruning_metrics n m a b)
  SameKind-or-panics (MetricValue.ratio n a) (MetricValue.ratio m b) = inl (SameKind.ratio n m a b)
  SameKind-or-panics (MetricValue.custom n a) (MetricValue.custom m b) =
      inl (SameKind.custom n m a b)
  SameKind-or-panics _ _ = inr refl

  pub SameKind-trans : {v o w : MetricValue} → SameKind v o → SameKind o w → SameKind v w
  SameKind-trans (SameKind.output_rows a b) (SameKind.output_rows _ c) = SameKind.output_rows a c
  SameKind-trans (SameKind.spill_count a b) (SameKind.spill_count _ c) = SameKind.spill_count a c
  SameKind-trans (SameKind.spilled_bytes a b) (SameKind.spilled_bytes _ c) =
      SameKind.spilled_bytes a c
  SameKind-trans (SameKind.output_bytes a b) (SameKind.output_bytes _ c) = SameKind.output_bytes a c
  SameKind-trans (SameKind.output_batches a b) (SameKind.output_batches _ c) =
      SameKind.output_batches a c
  SameKind-trans (SameKind.spilled_rows a b) (SameKind.spilled_rows _ c) = SameKind.spilled_rows a c
  SameKind-trans (SameKind.elapsed_compute a b) (SameKind.elapsed_compute _ c) =
      SameKind.elapsed_compute a c
  SameKind-trans (SameKind.current_memory_usage a b) (SameKind.current_memory_usage _ c) =
      SameKind.current_memory_usage a c
  SameKind-trans (SameKind.count n m a b) (SameKind.count _ k _ c) = SameKind.count n k a c
  SameKind-trans (SameKind.gauge n m a b) (SameKind.gauge _ k _ c) = SameKind.gauge n k a c
  SameKind-trans (SameKind.peak_memory_usage n m a b) (SameKind.peak_memory_usage _ k _ c) =
      SameKind.peak_memory_usage n k a c
  SameKind-trans (SameKind.time n m a b) (SameKind.time _ k _ c) = SameKind.time n k a c
  SameKind-trans (SameKind.start_timestamp a b) (SameKind.start_timestamp _ c) =
      SameKind.start_timestamp a c
  SameKind-trans (SameKind.end_timestamp a b) (SameKind.end_timestamp _ c) =
      SameKind.end_timestamp a c
  SameKind-trans (SameKind.pruning_metrics n m a b) (SameKind.pruning_metrics _ k _ c) =
      SameKind.pruning_metrics n k a c
  SameKind-trans (SameKind.ratio n m a b) (SameKind.ratio _ k _ c) = SameKind.ratio n k a c
  SameKind-trans (SameKind.custom n m a b) (SameKind.custom _ k _ c) = SameKind.custom n k a c

  -- Two values either are of one variant, and then `aggregate` gives a value of that variant under
  -- the first one's name, or they are not, and then it panics.
  pub aggregate-cases :
      (v o : MetricValue)
      → (SameKind v o
          × ((r : MetricValue) × (aggregate v o ≡ Run.done r) × (SameKind v r) × (name r ≡ name v)))
        ⊎ ((¬ SameKind v o) × (aggregate v o ≡ Run.panics))
  aggregate-cases v o = elim (SameKind-or-panics v o) [
    | inl k ↦ inl (k, aggregate-SameKind k)
    | inr h ↦ inr (λ k. done_or_panics (sym (aggregate-SameKind k).1 ∙ h), h)
  ]
