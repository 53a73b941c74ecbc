-- ===== src/Metrics/ByName.antt =====
-- fdapquery-physical-plan/src/metrics.rs: the values of the map that `MetricsSet::aggregate_by_name` fills.
use fdapquery.Base.{
  String, ◌≡◌, refl, sym, ◌∙◌, ap, subst, inl, inr, List, [], ◌∷◌, Bool, false, Option, none, some,
  filter, if◌then◌else◌, text_eq, eq_iff, eq_refl, Bool-cases,
}
use fdapquery.Metrics.Timestamp.{Chrono}
use fdapquery.Metrics.Value.{CustomMetricValue, MetricValue, Run, ◌>>=◌, name, new_empty, aggregate}
use fdapquery.Metrics.Metric
use fdapquery.Metrics.Metric.{Metric, MetricCategory, with_type, with_category}
use fdapquery.Metrics.Set.{
  aggregate_all, sum_matching, with_category_of, first_of_name, add_entry, add_entries,
}

pub bind-eq-done :
    {A B : Type 0} (r : Run A) (f : A → Run B) {b : B}
    → (r >>= f) ≡ Run.done b
    → (a : A) × (r ≡ Run.done a) × (f a ≡ Run.done b)
bind-eq-done (Run.done a) f h = (a, refl, h)
bind-eq-done Run.panics f h = cc

pub done-injective : {A : Type 0} {a b : A} → Run.done a ≡ Run.done b → a ≡ b
done-injective h = cc

module _ ⦃chrono : Chrono⦄ ⦃dyn : CustomMetricValue⦄ where
  -- The metrics that the map counts under a name.
  abbrev pub has_name : String → Metric → Bool
  has_name n m = text_eq (name m.value) n

  -- The value under a name.
  unfoldable pub entry : String → List (String × Metric) → Option MetricValue
  entry n [] = none
  entry n ((k, a) ∷ es) = if text_eq k n then some a.value else entry n es

  -- Aggregation from the value that a name has so far.
  abbrev pub step : Option MetricValue → Metric → Run MetricValue
  step none m = aggregate (new_empty m.value) m.value
  step (some a) m = aggregate a m.value

  unfoldable pub sum_from : Option MetricValue → List Metric → Run (Option MetricValue)
  unfolding sum_matching aggregate_all
  sum_from none ms = sum_matching ms
  sum_from (some a) ms = do v ← aggregate_all a ms; Run.done (some v)

  sum_from-nil : (o : Option MetricValue) → sum_from o [] ≡ Run.done o
  unfolding sum_from sum_matching aggregate_all
  sum_from-nil none = refl
  sum_from-nil (some a) = refl

  sum_from-cons :
      (o : Option MetricValue) (m : Metric) (ms : List Metric) (v : MetricValue)
      → step o m ≡ Run.done v
      → sum_from o (m ∷ ms) ≡ sum_from (some v) ms
  unfolding sum_from sum_matching aggregate_all
  sum_from-cons none m ms v h = rw h refl
  sum_from-cons (some a) m ms v h = rw h refl

  pub value-with_category_of :
      (c : Option MetricCategory) (m : Metric) → (with_category_of c m).value ≡ m.value
  unfolding with_category
  value-with_category_of none m = refl
  value-with_category_of (some c) m = refl

  pub first_of_name-done :
      (m a : Metric) → first_of_name m ≡ Run.done a → step none m ≡ Run.done a.value
  unfolding first_of_name with_type with_category Metric.new Metric.new_with_labels
  first_of_name-done m a h =
      let (v, p, q) = bind-eq-done (aggregate (new_empty m.value) m.value) _ h in
      p
      ∙ ap (λ x. Run.done x)
          (sym (value-with_category_of m.metric_category _) ∙ ap (λ x. x.value) (done-injective q))

  -- The entry of the metric's own name takes one step, and the others stay.
  pub entry-add_entry :
      (m : Metric) (es es' : List (String × Metric))
      → add_entry m es ≡ Run.done es'
      → (v : MetricValue) × (step (entry (name m.value) es) m ≡ Run.done v)
        × (entry (name m.value) es' ≡ some v)
  unfolding add_entry entry
  entry-add_entry m [] es' h =
      let (a, p, q) = bind-eq-done (first_of_name m) _ h in
      (a.value, first_of_name-done m a p, rw (← done-injective q, eq_refl (name m.value)) refl)
  entry-add_entry m ((k, a) ∷ es) es' h = elim (Bool-cases (text_eq k (name m.value))) [
    | inl t ↦
        let (v, p, q) = bind-eq-done (aggregate a.value m.value) _ (rw t at h) in
        (v, rw t p, rw (← done-injective q, t) refl)
    | inr f ↦
        let (es1, p, q) = bind-eq-done (add_entry m es) _ (rw f at h) in
        let (v, r, e) = entry-add_entry m es es1 p in (v, rw f r, rw (← done-injective q, f) e)
  ]

  entry-add_entry_other :
      (n : String) (m : Metric) (es es' : List (String × Metric))
      → text_eq (name m.value) n ≡ false
      → add_entry m es ≡ Run.done es'
      → entry n es' ≡ entry n es
  unfolding add_entry entry
  entry-add_entry_other n m [] es' other h =
      let (a, p, q) = bind-eq-done (first_of_name m) _ h in rw (← done-injective q, other) refl
  entry-add_entry_other n m ((k, a) ∷ es) es' other h =
      elim (Bool-cases (text_eq k (name m.value))) [
        | inl t ↦
            let (v, p, q) = bind-eq-done (aggregate a.value m.value) _ (rw t at h) in
            let not_k =
              subst (λ x. text_eq x n ≡ false) (sym ((eq_iff k (name m.value)).0 t)) other in
            rw (← done-injective q, not_k) refl
        | inr f ↦
            let (es1, p, q) = bind-eq-done (add_entry m es) _ (rw f at h) in
            rw (← done-injective q, entry-add_entry_other n m es es1 other p) refl
      ]

  -- Each name's value is the sum of the metrics of that name, added to what it was before.
  pub sum_from-add_entries :
      (n : String) (ms : List Metric) (es es' : List (String × Metric))
      → add_entries ms es ≡ Run.done es'
      → sum_from (entry n es) (filter (has_name n) ms) ≡ Run.done (entry n es')
  unfolding add_entries filter
  sum_from-add_entries n [] es es' h =
      sum_from-nil (entry n es) ∙ ap (λ x. Run.done (entry n x)) (done-injective h)
  sum_from-add_entries n (m ∷ ms) es es' h =
      let (es1, p, q) = bind-eq-done (add_entry m es) _ h in
      elim (Bool-cases (text_eq (name m.value) n)) [
        | inl t ↦
            let (v, r, e) = entry-add_entry m es es1 p in
            let same = (eq_iff (name m.value) n).0 t in
            let r' = subst (λ x. step (entry x es) m ≡ Run.done v) same r in
            let e' = subst (λ x. entry x es1 ≡ some v) same e in
            rw (t, sum_from-cons (entry n es) m (filter (has_name n) ms) v r', ← e')
              (sum_from-add_entries n ms es1 es' q)
        | inr f ↦
            rw (f, ← entry-add_entry_other n m es es1 f p) (sum_from-add_entries n ms es1 es' q)
      ]
