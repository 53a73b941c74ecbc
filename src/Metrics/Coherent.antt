-- ===== src/Metrics/Coherent.antt =====
-- fdapquery-physical-plan/src/metrics.rs: where `MetricsSet::aggregate_by_name` panics.
use fdapquery.Base.{
  String, ◌≡◌, refl, sym, ◌∙◌, subst, ◌↔◌, inl, inr, List, [], ◌∷◌, Option, none, some, filter,
  text_eq, eq_iff, All, All-map, All-filter, Bool-cases,
}
use fdapquery.Metrics.Timestamp.{Chrono}
use fdapquery.Metrics.Value.{CustomMetricValue, MetricValue, Run, name, aggregate}
use fdapquery.Metrics.Metric
use fdapquery.Metrics.Metric.{Metric, with_type}
use fdapquery.Metrics.Set.{aggregate_all, with_category_of, first_of_name, add_entry, add_entries}
use fdapquery.Metrics.Kinds.{
  SameKind, SameKind-sym, SameKind-trans, SameKind-new_empty, aggregate-SameKind, aggregate-cases,
  done_or_panics,
}
use fdapquery.Metrics.ByName.{
  bind-eq-done, done-injective, step, sum_from, has_name, value-with_category_of, entry-add_entry,
  sum_from-add_entries,
}

module _ ⦃chrono : Chrono⦄ ⦃dyn : CustomMetricValue⦄ where
  aggregate-kinds : (v o r : MetricValue) → aggregate v o ≡ Run.done r → SameKind v o × SameKind v r
  aggregate-kinds v o r h = elim (aggregate-cases v o) [
    | inl (s, (q, e, kind, n)) ↦ (s, subst (SameKind v) (done-injective (sym e ∙ h)) kind)
    | inr (k, e) ↦ absurd (done_or_panics (sym h ∙ e))
  ]

  -- The later metrics that share a metric's name share its variant.
  abbrev pub Agrees : String → MetricValue → List Metric → Type 0
  Agrees n v ms = All (λ x. (name x.value ≡ n) → SameKind v x.value) ms

  -- Metrics of one name are of one variant.
  abbrev pub Coherent : List Metric → Type 0
  Coherent [] = Unit
  Coherent (m ∷ ms) = Agrees (name m.value) m.value ms × Coherent ms

  abbrev Ready : List Metric → List (String × Metric) → Type 0
  Ready ms es = All (λ e. Agrees e.0 e.1.value ms) es

  Agrees-SameKind :
      (n : String) (v w : MetricValue) (ms : List Metric)
      → SameKind v w
      → Agrees n v ms
      → Agrees n w ms
  Agrees-SameKind n v w ms k = All-map ms (λ x f e. SameKind-trans (SameKind-sym k) (f e))

  first_of_name-Agrees :
      (m : Metric) (ms : List Metric)
      → Agrees (name m.value) m.value ms
      → (a : Metric) × (first_of_name m ≡ Run.done a) × Agrees (name m.value) a.value ms
  unfolding first_of_name with_type Metric.new Metric.new_with_labels
  first_of_name-Agrees m ms agrees =
      let empty = SameKind-new_empty m.value in
      let (v, e, k, n) = aggregate-SameKind empty in
      (
        with_category_of m.metric_category (with_type (Metric.new v none) m.metric_type),
        rw e refl,
        subst (λ x. Agrees (name m.value) x ms) (sym (value-with_category_of m.metric_category _))
            (Agrees-SameKind (name m.value) m.value v ms (SameKind-trans (SameKind-sym empty) k)
              agrees),
      )

  add_entry-Ready :
      (m : Metric) (ms : List Metric) (es : List (String × Metric))
      → Agrees (name m.value) m.value ms
      → Ready (m ∷ ms) es
      → (es' : List (String × Metric)) × (add_entry m es ≡ Run.done es') × Ready ms es'
  unfolding add_entry
  add_entry-Ready m ms [] agrees ready =
      let (a, e, k) = first_of_name-Agrees m ms agrees in
      ((name m.value, a) ∷ [], rw e refl, (k, tt))
  add_entry-Ready m ms ((k, a) ∷ es) agrees ((f, fs), ready) =
      elim (Bool-cases (text_eq k (name m.value))) [
        | inl t ↦
            let (v, e, s, n) = aggregate-SameKind (f (sym ((eq_iff k (name m.value)).0 t))) in
            (
              (k, record a { value = v }) ∷ es,
              rw (t, e) refl,
              (Agrees-SameKind k a.value v ms s fs, All-map es (λ x p. p.1) ready),
            )
        | inr t ↦
            let (es1, e, rest) = add_entry-Ready m ms es agrees ready in
            ((k, a) ∷ es1, rw (t, e) refl, (fs, rest))
      ]

  add_entries-Coherent :
      (ms : List Metric) (es : List (String × Metric))
      → Coherent ms
      → Ready ms es
      → (es' : List (String × Metric)) × (add_entries ms es ≡ Run.done es')
  unfolding add_entries
  add_entries-Coherent [] es c ready = (es, refl)
  add_entries-Coherent (m ∷ ms) es (agrees, c) ready =
      let (es1, e, ready1) = add_entry-Ready m ms es agrees ready in
      rw e (add_entries-Coherent ms es1 c ready1)

  aggregate_all-kinds :
      (v r : MetricValue) (ms : List Metric)
      → aggregate_all v ms ≡ Run.done r
      → All (λ x. SameKind v x.value) ms
  unfolding aggregate_all
  aggregate_all-kinds v r [] h = tt
  aggregate_all-kinds v r (m ∷ ms) h =
      let (a, p, q) = bind-eq-done (aggregate v m.value) _ h in
      let (k, s) = aggregate-kinds v m.value a p in
      (k, All-map ms (λ x l. SameKind-trans s l) (aggregate_all-kinds a r ms q))

  step-kind :
      (o : Option MetricValue) (m : Metric) (v : MetricValue)
      → step o m ≡ Run.done v
      → SameKind v m.value
  step-kind none m v h =
      let (k, s) = aggregate-kinds _ m.value v h in SameKind-trans (SameKind-sym s) k
  step-kind (some a) m v h =
      let (k, s) = aggregate-kinds a m.value v h in SameKind-trans (SameKind-sym s) k

  add_entries-Agrees :
      (m : Metric) (ms : List Metric) (es es' : List (String × Metric))
      → add_entries (m ∷ ms) es ≡ Run.done es'
      → Agrees (name m.value) m.value ms
  unfolding add_entries sum_from
  add_entries-Agrees m ms es es' h =
      let (es1, p, q) = bind-eq-done (add_entry m es) _ h in
      let (v, r, e) = entry-add_entry m es es1 p in
      let s = sum_from-add_entries (name m.value) ms es1 es' q in
      let (w, p', q') =
        bind-eq-done (aggregate_all v (filter (has_name (name m.value)) ms)) _ (rw e at s) in
      let kinds = aggregate_all-kinds v w (filter (has_name (name m.value)) ms) p' in
      All-map ms
        (λ x k n.
          SameKind-trans (SameKind-sym (step-kind _ m v r))
            (k ((eq_iff (name x.value) (name m.value)).1 n)))
        (All-filter _ (has_name (name m.value)) ms kinds)

  add_entries-done :
      (ms : List Metric) (es es' : List (String × Metric))
      → add_entries ms es ≡ Run.done es'
      → Coherent ms
  unfolding add_entries
  add_entries-done [] es es' h = tt
  add_entries-done (m ∷ ms) es es' h =
      let (es1, p, q) = bind-eq-done (add_entry m es) _ h in
      (add_entries-Agrees m ms es es' h, add_entries-done ms es1 es' q)

  pub add_entries-done_iff :
      (ms : List Metric)
      → ((es : List (String × Metric)) × (add_entries ms [] ≡ Run.done es)) ↔ Coherent ms
  add_entries-done_iff ms =
      (λ (es, h). add_entries-done ms [] es h, λ c. add_entries-Coherent ms [] c tt)
