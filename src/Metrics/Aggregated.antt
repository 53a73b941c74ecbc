-- ===== src/Metrics/Aggregated.antt =====
-- fdapquery-physical-plan/src/metrics.rs: `MetricsSet::aggregate_by_name` as a whole.
use mathlib.Core.List.{Permᴰ}
use fdapquery.Base.{
  Bool, true, false, not, Option, none, filter, is_empty, text_eq, inl, inr, Bool-cases,
  true_ne_false, String, ◌≡◌, refl, sym, ◌∙◌, ap, subst, ◌↔◌, List, [], ◌∷◌, some, map, eq_iff, All,
}
use fdapquery.Metrics.Timestamp.{Chrono}
use fdapquery.Metrics.Value.{CustomMetricValue, MetricValue, Run, name, new_empty}
use fdapquery.Metrics.Metric.{Metric}
use fdapquery.Metrics.Set.{any, sum, sum_matching, aggregate_all, add_entries, aggregate_by_name}
use fdapquery.Metrics.ByName.{
  bind-eq-done, done-injective, entry, sum_from, has_name, sum_from-add_entries,
}
use fdapquery.Metrics.Keys.{Fresh, Keyed, Found, Keyed-add_entries, Keyed-Found}
use fdapquery.Metrics.Coherent.{Coherent, add_entries-done_iff}

All-Permᴰ {ℓ κ} : {A : Type ℓ} (P : A → Type κ) {xs ys : List A} → Permᴰ xs ys → All P xs → All P ys
All-Permᴰ P Permᴰ.nil ps = tt
All-Permᴰ P (Permᴰ.cons e d) (p, ps) = (subst P e p, All-Permᴰ P d ps)
All-Permᴰ P (Permᴰ.swap e f) (p, (q, ps)) = (subst P f q, (subst P e p, ps))
All-Permᴰ P (Permᴰ.trans d c) ps = All-Permᴰ P c (All-Permᴰ P d ps)

any-Permᴰ {ℓ} : {A : Type ℓ} (p : A → Bool) {xs ys : List A} → Permᴰ xs ys → any p xs ≡ any p ys
any-Permᴰ p Permᴰ.nil = refl
any-Permᴰ p (Permᴰ.cons e d) = rw (e, any-Permᴰ p d) refl
any-Permᴰ p (Permᴰ.swap {a} {b} e f) =
    rw (← e, ← f)
      (elim (Bool-cases (p a)) [
        | inl t ↦ elim (Bool-cases (p b)) [ inl u ↦ rw (t, u) refl | inr u ↦ rw (t, u) refl ]
        | inr t ↦ elim (Bool-cases (p b)) [ inl u ↦ rw (t, u) refl | inr u ↦ rw (t, u) refl ]
      ])
any-Permᴰ p (Permᴰ.trans d c) = any-Permᴰ p d ∙ any-Permᴰ p c

any-filter {ℓ} : {A : Type ℓ} (p : A → Bool) (xs : List A) → not (is_empty (filter p xs)) ≡ any p xs
unfolding filter
any-filter p [] = refl
any-filter p (x ∷ xs) = elim (Bool-cases (p x)) [
  | inl t ↦ rw t refl
  | inr t ↦ rw t (any-filter p xs)
]

abbrev is_some {ℓ} : {A : Type ℓ} → Option A → Bool
is_some none = false
is_some (some a) = true

module _ ⦃chrono : Chrono⦄ ⦃dyn : CustomMetricValue⦄ where
  is_some-sum_matching :
      (ms : List Metric) (o : Option MetricValue)
      → sum_matching ms ≡ Run.done o
      → is_some o ≡ not (is_empty ms)
  unfolding sum_matching
  is_some-sum_matching [] o h = ap is_some (sym (done-injective h))
  is_some-sum_matching (m ∷ ms) o h =
      let (v, p, q) = bind-eq-done (aggregate_all (new_empty m.value) (m ∷ ms)) _ h in
      ap is_some (sym (done-injective q))

  -- No two metrics of one name.
  abbrev pub Distinct : List Metric → Type 0
  Distinct [] = Unit
  Distinct (a ∷ rest) = All (λ b. ¬ (name a.value ≡ name b.value)) rest × Distinct rest

  Distinct-Permᴰ : {xs ys : List Metric} → Permᴰ xs ys → Distinct xs → Distinct ys
  Distinct-Permᴰ Permᴰ.nil ds = tt
  Distinct-Permᴰ (Permᴰ.cons {l₁} e d) (p, ds) = (
    All-Permᴰ _ d
        (subst (λ (x : Metric). All (λ (b : Metric). ¬ (name x.value ≡ name b.value)) l₁) e p),
    Distinct-Permᴰ d ds,
  )
  Distinct-Permᴰ (Permᴰ.swap {a} {b} {a'} {b'} {l} e f) ((p, ps), (qs, ds)) =
      subst (λ x. Distinct (x ∷ b' ∷ l)) f
        (subst (λ x. Distinct (b ∷ x ∷ l)) e (((λ h. p (sym h)), qs), (ps, ds)))
  Distinct-Permᴰ (Permᴰ.trans d c) ds = Distinct-Permᴰ c (Distinct-Permᴰ d ds)

  -- The hash map is read in any order.
  abbrev pub Unordered : (List (String × Metric) → List Metric) → Type 0
  Unordered into_values = (es : List (String × Metric)) → Permᴰ (map (λ e. e.1) es) (into_values es)

  All-values :
      (P : Metric → Type 0) (es : List (String × Metric))
      → All (λ e. P e.1) es
      → All P (map (λ e. e.1) es)
  All-values P [] ps = tt
  All-values P ((k, a) ∷ es) (p, ps) = (p, All-values P es ps)

  Fresh-names :
      (k : String) (es : List (String × Metric))
      → Fresh k es
      → Keyed es
      → All (λ e. ¬ (k ≡ name e.1.value)) es
  Fresh-names k [] f c = tt
  Fresh-names k ((l, a) ∷ es) (f, fs) (n, g, c) = (
    (λ h. absurd (true_ne_false (sym ((eq_iff l k).1 (sym (h ∙ n))) ∙ f))),
    Fresh-names k es fs c,
  )

  Keyed-Distinct : (es : List (String × Metric)) → Keyed es → Distinct (map (λ e. e.1) es)
  Keyed-Distinct [] c = tt
  Keyed-Distinct ((k, a) ∷ es) (n, f, c) = (
    All-values (λ b. ¬ (name a.value ≡ name b.value)) es
        (subst (λ x. All (λ e. ¬ (x ≡ name e.1.value)) es) (sym n) (Fresh-names k es f c)),
    Keyed-Distinct es c,
  )

  Found-sum :
      (ms : List Metric) (es : List (String × Metric))
      → add_entries ms [] ≡ Run.done es
      → (sub : List (String × Metric)) → Found es sub
      → All (λ e. sum ms (has_name (name e.1.value)) ≡ Run.done (some e.1.value)) sub
  unfolding sum sum_from entry
  Found-sum ms es h [] found = tt
  Found-sum ms es h (e ∷ sub) (f, found) = (
    sum_from-add_entries (name e.1.value) ms [] es h ∙ ap (λ o. Run.done o) f,
    Found-sum ms es h sub found,
  )

  -- The aggregation by name answers exactly where any two metrics of one name are of one variant;
  -- elsewhere it panics.
  pub aggregate_by_name-done_iff :
      (into_values : List (String × Metric) → List Metric) (ms : List Metric)
      → ((out : List Metric) × (aggregate_by_name into_values ms ≡ Run.done out)) ↔ Coherent ms
  unfolding aggregate_by_name
  aggregate_by_name-done_iff into_values ms = (
    λ (out, h).
        let (es, p, q) = bind-eq-done (add_entries ms []) _ h in
        (add_entries-done_iff ms).0 (es, p),
    λ c. let (es, p) = (add_entries-done_iff ms).1 c in (into_values es, rw p refl),
  )

  any-entry :
      (n : String) (es : List (String × Metric))
      → Keyed es
      → any (has_name n) (map (λ e. e.1) es) ≡ is_some (entry n es)
  unfolding entry
  any-entry n [] c = refl
  any-entry n ((k, a) ∷ es) (named, f, c) =
      rw named
        (elim (Bool-cases (text_eq k n)) [ inl t ↦ rw t refl | inr t ↦ rw t (any-entry n es c) ])

  -- A name is in the map just where some metric has it.
  any-add_entries :
      (n : String) (ms : List Metric) (es : List (String × Metric))
      → add_entries ms [] ≡ Run.done es
      → Keyed es
      → any (has_name n) (map (λ e. e.1) es) ≡ any (has_name n) ms
  unfolding sum_from entry
  any-add_entries n ms es h keyed =
      any-entry n es keyed
      ∙ is_some-sum_matching (filter (has_name n) ms) (entry n es)
          (sum_from-add_entries n ms [] es h)
      ∙ any-filter (has_name n) ms

  -- Whatever the order of the hash map, where the aggregation answers: the answer has a metric of a name just where the set has
  -- one, it has no two metrics of one name, and each of its metrics has the value that `sum` gives
  -- for all the metrics of its name.
  pub aggregate_by_name-sum :
      (into_values : List (String × Metric) → List Metric) (ms out : List Metric)
      → Unordered into_values
      → aggregate_by_name into_values ms ≡ Run.done out
      → ((n : String) → any (has_name n) out ≡ any (has_name n) ms)
        × Distinct out
        × All (λ a. sum ms (has_name (name a.value)) ≡ Run.done (some a.value)) out
  unfolding aggregate_by_name
  aggregate_by_name-sum into_values ms out unordered h =
      let (es, p, q) = bind-eq-done (add_entries ms []) _ h in
      let keyed = Keyed-add_entries ms [] es tt p in
      let order = subst (Permᴰ (map (λ e. e.1) es)) (done-injective q) (unordered es) in
      (
        λ n. sym (any-Permᴰ (has_name n) order) ∙ any-add_entries n ms es p keyed,
        Distinct-Permᴰ order (Keyed-Distinct es keyed),
        All-Permᴰ _ order (All-values _ es (Found-sum ms es p es (Keyed-Found es keyed))),
      )
