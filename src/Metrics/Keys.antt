-- ===== src/Metrics/Keys.antt =====
-- fdapquery-physical-plan/src/metrics.rs: the keys of the map that `MetricsSet::aggregate_by_name` fills.
use fdapquery.Base.{
  true_ne_false, String, ◌≡◌, refl, sym, ◌∙◌, subst, inl, inr, List, [], ◌∷◌, true, false, some,
  text_eq, eq_iff, eq_refl, All, Bool-cases,
}
use fdapquery.Metrics.Timestamp.{Chrono}
use fdapquery.Metrics.Value.{CustomMetricValue, MetricValue, Run, name, aggregate}
use fdapquery.Metrics.Metric.{Metric}
use fdapquery.Metrics.Set.{first_of_name, add_entry, add_entries}
use fdapquery.Metrics.Kinds.{done_or_panics, aggregate-cases, name-new_empty}
use fdapquery.Metrics.ByName.{bind-eq-done, done-injective, entry, first_of_name-done}

text_eq_swap : (s t : String) → text_eq s t ≡ false → text_eq t s ≡ false
text_eq_swap s t h = elim (Bool-cases (text_eq t s)) [
  | inl e ↦
      absurd
        (true_ne_false (sym (subst (λ x. text_eq x t ≡ true) ((eq_iff t s).0 e) (eq_refl t)) ∙ h))
  | inr e ↦ e
]

module _ ⦃chrono : Chrono⦄ ⦃dyn : CustomMetricValue⦄ where
  abbrev pub Fresh : String → List (String × Metric) → Type 0
  Fresh k [] = Unit
  Fresh k ((l, a) ∷ es) = (text_eq l k ≡ false) × Fresh k es

  -- No key twice, and each key is the name of its metric.
  abbrev pub Keyed : List (String × Metric) → Type 0
  Keyed [] = Unit
  Keyed ((k, a) ∷ es) = (name a.value ≡ k) × Fresh k es × Keyed es

  pub name-aggregate : (v o r : MetricValue) → aggregate v o ≡ Run.done r → name r ≡ name v
  name-aggregate v o r h = elim (aggregate-cases v o) [
    | inl (s, (q, e, kind, n)) ↦ subst (λ x. name x ≡ name v) (done-injective (sym e ∙ h)) n
    | inr (k, e) ↦ absurd (done_or_panics (sym h ∙ e))
  ]

  Fresh-add_entry :
      (k : String) (m : Metric) (es es' : List (String × Metric))
      → text_eq (name m.value) k ≡ false
      → Fresh k es
      → add_entry m es ≡ Run.done es'
      → Fresh k es'
  unfolding add_entry
  Fresh-add_entry k m [] es' other fresh h =
      let (a, p, q) = bind-eq-done (first_of_name m) _ h in
      subst (Fresh k) (done-injective q) (other, tt)
  Fresh-add_entry k m ((l, a) ∷ es) es' other (f, fs) h =
      elim (Bool-cases (text_eq l (name m.value))) [
        | inl t ↦
            let (v, p, q) = bind-eq-done (aggregate a.value m.value) _ (rw t at h) in
            subst (Fresh k) (done-injective q) (f, fs)
        | inr t ↦
            let (es1, p, q) = bind-eq-done (add_entry m es) _ (rw t at h) in
            subst (Fresh k) (done-injective q) (f, Fresh-add_entry k m es es1 other fs p)
      ]

  Keyed-add_entry :
      (m : Metric) (es es' : List (String × Metric))
      → Keyed es
      → add_entry m es ≡ Run.done es'
      → Keyed es'
  unfolding add_entry
  Keyed-add_entry m [] es' keyed h =
      let (a, p, q) = bind-eq-done (first_of_name m) _ h in
      subst Keyed (done-injective q)
        (name-aggregate _ _ _ (first_of_name-done m a p) ∙ name-new_empty m.value, tt, tt)
  Keyed-add_entry m ((l, a) ∷ es) es' (n, f, keyed) h =
      elim (Bool-cases (text_eq l (name m.value))) [
        | inl t ↦
            let (v, p, q) = bind-eq-done (aggregate a.value m.value) _ (rw t at h) in
            subst Keyed (done-injective q) (name-aggregate _ _ _ p ∙ n, f, keyed)
        | inr t ↦
            let (es1, p, q) = bind-eq-done (add_entry m es) _ (rw t at h) in
            subst Keyed (done-injective q) (
              n,
              Fresh-add_entry l m es es1 (text_eq_swap l (name m.value) t) f p,
              Keyed-add_entry m es es1 keyed p,
            )
      ]

  pub Keyed-add_entries :
      (ms : List Metric) (es es' : List (String × Metric))
      → Keyed es
      → add_entries ms es ≡ Run.done es'
      → Keyed es'
  unfolding add_entries
  Keyed-add_entries [] es es' keyed h = subst Keyed (done-injective h) keyed
  Keyed-add_entries (m ∷ ms) es es' keyed h =
      let (es1, p, q) = bind-eq-done (add_entry m es) _ h in
      Keyed-add_entries ms es1 es' (Keyed-add_entry m es es1 keyed p) q

  -- The value under the name of each entry is the entry's.
  abbrev pub Found : List (String × Metric) → List (String × Metric) → Type 0
  Found all es = All (λ e. entry (name e.1.value) all ≡ some e.1.value) es

  Found-cons :
      (k : String) (a : Metric) (all es : List (String × Metric))
      → Fresh k es
      → Keyed es
      → Found all es
      → Found ((k, a) ∷ all) es
  unfolding entry
  Found-cons k a all [] fresh keyed found = tt
  Found-cons k a all ((l, b) ∷ es) (f, fresh) (n, g, keyed) (e, found) = (
    rw (subst (λ x. text_eq k x ≡ false) (sym n) (text_eq_swap l k f)) e,
    Found-cons k a all es fresh keyed found,
  )

  pub Keyed-Found : (es : List (String × Metric)) → Keyed es → Found es es
  unfolding entry
  Keyed-Found [] keyed = tt
  Keyed-Found ((k, a) ∷ es) (n, fresh, keyed) = (
    rw (subst (λ x. text_eq k x ≡ true) (sym n) (eq_refl k)) refl,
    Found-cons k a es es fresh keyed (Keyed-Found es keyed),
  )
