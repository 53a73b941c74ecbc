-- ===== src/Accumulator/Counts.antt =====
-- fdapquery-physical-expr/src/count_expression.rs: a COUNT computed in parts.
use native.Mathlib.Nat.{mod-add-mod, add-mod-mod, mod-lt}
use fdapquery.Base.{
  ℕ, ◌+◌, ◌^◌, ◌%◌, ◌≤◌, ◌≡◌, refl, ◌∙◌, ap, inl, inr, List, [], ◌∷◌, ◌++◌, ℤ, pos, if◌then◌else◌,
  Bool-cases, arith,
}
use fdapquery.External.{External}
use fdapquery.Errors.{Outcome, ok, ◌>>=◌}
use fdapquery.Scalar.{ScalarValue, is_null}
use fdapquery.PhysicalExpr.{PhysicalExpr, AggregateExpr}
use fdapquery.Accumulator.{Floats, AccumulatorValue, wrapping_add, of_bits}
use fdapquery.Accumulator.Wrapping.{to_bits-of_bits}
use fdapquery.Accumulator.Kinds.{
  Conversions, Accumulator, count_accumulator, create_accumulator, accumulate, final_value,
  intermediate_value, merge, merge_count, number_to_i64, to_i32,
}

-- A number as the signed integer from -half to half - 1 that has its low bits.
unfoldable pub wrapped : (half : ℕ) → ℕ → ℤ
wrapped half n = of_bits half (n % (half + half))

wrapping_add-wrapped :
    (half m n : ℕ)
    → 1 ≤ half
    → wrapping_add half (wrapped half m) (wrapped half n) ≡ wrapped half (m + n)
unfolding wrapping_add wrapped
wrapping_add-wrapped half m n positive =
    rw
      (
        to_bits-of_bits half (m % (half + half)) (mod-lt m (omega arith)),
        to_bits-of_bits half (n % (half + half)) (mod-lt n (omega arith)),
      )
      (ap (of_bits half)
        (mod-add-mod m (half + half) (n % (half + half)) ∙ add-mod-mod m n (half + half)))

zero-wrapped : pos 0 ≡ wrapped (2 ^ 31) 0
unfolding wrapped of_bits
zero-wrapped = refl

module _ ⦃ext : External⦄ where
  -- How many of the values are not null.
  unfoldable pub non_nulls : List ScalarValue → ℕ
  non_nulls [] = 0
  non_nulls (v ∷ vs) = if is_null v then non_nulls vs else 1 + non_nulls vs

  non_nulls-append : (vs ws : List ScalarValue) → non_nulls (vs ++ ws) ≡ non_nulls vs + non_nulls ws
  unfolding non_nulls
  non_nulls-append [] ws = omega arith
  non_nulls-append (v ∷ vs) ws = elim (Bool-cases (is_null v)) [
    | inl e ↦ rw e (non_nulls-append vs ws)
    | inr e ↦ rw (e, non_nulls-append vs ws) (omega arith)
  ]

module _ ⦃ext : External⦄ ⦃floats : Floats⦄ ⦃conversions : Conversions⦄ where
  unfoldable pub accumulate_each : Accumulator → List ScalarValue → Outcome Accumulator
  accumulate_each acc [] = ok acc
  accumulate_each acc (v ∷ vs) = do next ← accumulate acc v; accumulate_each next vs

  accumulate_each-count :
      (m : ℕ) (vs : List ScalarValue)
      → accumulate_each (count_accumulator (wrapped (2 ^ 31) m)) vs
        ≡ ok (count_accumulator (wrapped (2 ^ 31) (m + non_nulls vs)))
  unfolding accumulate_each non_nulls accumulate wrapped
  accumulate_each-count m [] = ap (λ k. ok (count_accumulator (wrapped (2 ^ 31) k))) (omega arith)
  accumulate_each-count m (v ∷ vs) = elim (Bool-cases (is_null v)) [
    | inl e ↦ rw e (accumulate_each-count m vs)
    | inr e ↦
        rw (e, wrapping_add-wrapped (2 ^ 31) m 1 (omega arith))
          (accumulate_each-count (m + 1) vs
            ∙ ap (λ k. ok (count_accumulator (wrapped (2 ^ 31) k))) (omega arith))
  ]

  accumulate_each-created :
      (e : PhysicalExpr) (vs : List ScalarValue)
      → accumulate_each (create_accumulator (AggregateExpr.count_expr e)) vs
        ≡ ok (count_accumulator (wrapped (2 ^ 31) (non_nulls vs)))
  unfolding create_accumulator
  accumulate_each-created e vs =
      ap (λ z. accumulate_each (count_accumulator z) vs) zero-wrapped
      ∙ accumulate_each-count 0 vs
      ∙ ap (λ k. ok (count_accumulator (wrapped (2 ^ 31) k))) (omega arith)

  to_i32-wrapped : (n : ℕ) → to_i32 (wrapped (2 ^ 31) n) ≡ wrapped (2 ^ 31) n
  unfolding to_i32 wrapped
  to_i32-wrapped n =
      ap (of_bits (2 ^ 31)) (to_bits-of_bits (2 ^ 31) (n % (2 ^ 32)) (mod-lt n (omega arith)))

  merge-count :
      (m n : ℕ)
      → merge
          (count_accumulator (wrapped (2 ^ 31) m))
          (AccumulatorValue.scalar (ScalarValue.int32 (wrapped (2 ^ 31) n)))
        ≡ ok (count_accumulator (wrapped (2 ^ 31) (m + n)))
  unfolding merge merge_count number_to_i64 is_null
  merge-count m n = rw (to_i32-wrapped n, wrapping_add-wrapped (2 ^ 31) m n (omega arith)) refl

  -- A COUNT always answers: the number of the values that are not null, as the `i32` with its low
  -- bits. Computed in two parts whose partial states are merged, it is what it is over all the
  -- values.
  pub final_value-merge_counts :
      (e : PhysicalExpr) (vs ws : List ScalarValue)
      → ((do
        counted ← accumulate_each (create_accumulator (AggregateExpr.count_expr e)) (vs ++ ws)
        final_value counted)
          ≡ ok (ScalarValue.int32 (wrapped (2 ^ 31) (non_nulls (vs ++ ws)))))
        × ((do
          counted ← accumulate_each (create_accumulator (AggregateExpr.count_expr e)) vs
          other ← accumulate_each (create_accumulator (AggregateExpr.count_expr e)) ws
          part ← intermediate_value other
          merge counted part)
            ≡ accumulate_each (create_accumulator (AggregateExpr.count_expr e)) (vs ++ ws))
  unfolding final_value intermediate_value
  final_value-merge_counts e vs ws = (
    rw (accumulate_each-created e (vs ++ ws)) refl,
    rw
        (
          accumulate_each-created e vs,
          accumulate_each-created e ws,
          accumulate_each-created e (vs ++ ws),
          non_nulls-append vs ws,
        )
        (merge-count (non_nulls vs) (non_nulls ws)),
  )
