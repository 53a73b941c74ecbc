-- ===== src/Metrics/Sums.antt =====
-- fdapquery-physical-plan/src/metrics.rs: `MetricsSet::sum` over a variant whose values are machine
-- words.
use fdapquery.Base.{
  ℕ, ◌+◌, ◌≡◌, refl, ◌∙◌, ap, ◌⊎◌, inl, inr, List, [], ◌∷◌, Bool, true, false, Option, none, some,
  filter, arith,
}
use mathlib.Core.Option
use fdapquery.Metrics.Timestamp.{Chrono}
use fdapquery.Metrics.Count.{wrap}
use fdapquery.Metrics.Value.{
  CustomMetricValue, MetricValue, Run, ◌>>=◌, new_empty, aggregate, as_usize,
}
use fdapquery.Metrics.Metric.{Metric}
use fdapquery.Metrics.Set.{aggregate_all, sum_matching}

-- The sum of a list of numbers, as a machine word; no numbers have none.
abbrev pub plus : List ℕ → ℕ
plus [] = 0
plus (n ∷ ns) = n + plus ns

abbrev pub word_sum : List ℕ → Option ℕ
word_sum [] = none
word_sum (n ∷ ns) = some (wrap (n + plus ns))

abbrev pub keep_some : Option ℕ → List ℕ → List ℕ
keep_some none ns = ns
keep_some (some n) ns = n ∷ ns

zero_add : (a : ℕ) → 0 + a ≡ a
zero_add a = omega arith

wrap_zero : (a : ℕ) → wrap (a + 0) ≡ wrap a
wrap_zero a = omega arith

wrap_add : (a b : ℕ) → wrap (wrap a + b) ≡ wrap (a + b)
wrap_add a b = omega arith

wrap_assoc : (a b c : ℕ) → wrap (a + b + c) ≡ wrap (a + (b + c))
wrap_assoc a b c = omega arith

module _ ⦃chrono : Chrono⦄ ⦃dyn : CustomMetricValue⦄ where
  abbrev pub parts : (MetricValue → Option ℕ) → List Metric → List ℕ
  parts get [] = []
  parts get (m ∷ ms) = keep_some (get m.value) (parts get ms)

  -- A variant whose values are words that aggregate by addition, each with its weight.
  pub record WordKind : Type 0 where
    pub is : MetricValue → Bool
    pub make : ℕ → MetricValue
    pub weight : ℕ → ℕ
    pub get : MetricValue → Option ℕ
    pub classify :
        (v : MetricValue)
        → ((is v ≡ false) × (get v ≡ none))
          ⊎ ((n : ℕ) × (v ≡ make n) × (is v ≡ true) × (get v ≡ some (weight n)))
    pub aggregate-make :
        (a b : ℕ) → aggregate (make a) (make b) ≡ Run.done (make (wrap (a + weight b)))
    pub new_empty-make : (a : ℕ) → new_empty (make a) ≡ make 0
    pub as_usize-make : (a : ℕ) → as_usize (make a) ≡ a

  module _ (k : WordKind) where
    aggregate_all-filter :
        (ms : List Metric) (acc : ℕ)
        → aggregate_all (k.make (wrap acc)) (filter (λ m. k.is m.value) ms)
          ≡ Run.done (k.make (wrap (acc + plus (parts k.get ms))))
    unfolding aggregate_all filter
    aggregate_all-filter [] acc = rw (wrap_zero acc) refl
    aggregate_all-filter (m ∷ ms) acc = elim (k.classify m.value) [
      | inl h ↦ rw (h.0, h.1) (aggregate_all-filter ms acc)
      | inr (n, v, i, g) ↦
          rw (i, g, v, k.aggregate-make (wrap acc) n, wrap_add acc (k.weight n))
            (aggregate_all-filter ms (acc + k.weight n)
              ∙ ap (λ t. Run.done (k.make t)) (wrap_assoc acc (k.weight n) (plus (parts k.get ms))))
    ]

    aggregate_all-first :
        (ms : List Metric) (m : Metric) (n : ℕ)
        → m.value ≡ k.make n
        → aggregate_all (new_empty m.value) (m ∷ filter (λ x. k.is x.value) ms)
          ≡ Run.done (k.make (wrap (k.weight n + plus (parts k.get ms))))
    unfolding aggregate_all
    aggregate_all-first ms m n v =
        rw (v, k.new_empty-make n, k.aggregate-make 0 n, zero_add (k.weight n))
          (aggregate_all-filter ms (k.weight n))

    pub sum_matching-filter :
        (ms : List Metric)
        → (do v ← sum_matching (filter (λ m. k.is m.value) ms); Run.done (Option.map as_usize v))
          ≡ Run.done (word_sum (parts k.get ms))
    unfolding sum_matching filter
    sum_matching-filter [] = refl
    sum_matching-filter (m ∷ ms) = elim (k.classify m.value) [
      | inl h ↦ rw (h.0, h.1) (sum_matching-filter ms)
      | inr (n, v, i, g) ↦
          rw (i, g, aggregate_all-first ms m n v) (ap (λ a. Run.done (some a)) (k.as_usize-make _))
    ]
