-- ===== src/Accumulator.antt =====
-- fdapquery-physical-expr/src/sum_expression.rs, with `AccumulatorValue` of expressions.rs: the state
-- of a SUM, its steps and the merging of partial states.
pub mod Wrapping
pub mod Merge
pub mod Counts
pub mod Kinds
use fdapquery.Base.{ℕ, ◌+◌, ◌-◌, ◌%◌, ◌^◌, Bool, List, [], ◌∷◌, ℤ, ltb, if◌then◌else◌}
use fdapquery.External.{External}
use fdapquery.Errors.{Outcome, ok, err, ◌>>=◌, not_implemented}
use fdapquery.Scalar.{
  ScalarValue, null, int8, int16, int32, int64, uint8, uint16, uint32, uint64, float32, float64,
  is_null,
}

-- The bits of a signed integer as an unsigned one, and back.
unfoldable pub to_bits : (modulus : ℕ) → ℤ → ℕ
to_bits modulus (ℤ.pos n) = n % modulus
to_bits modulus (ℤ.negsuc n) = modulus - 1 - n % modulus

unfoldable pub of_bits : (half : ℕ) → ℕ → ℤ
of_bits half n = if ltb n half then ℤ.pos n else ℤ.negsuc (half + half - 1 - n)

-- `wrapping_add` of signed integers from -half to half - 1.
unfoldable pub wrapping_add : (half : ℕ) → ℤ → ℤ → ℤ
unfolding to_bits of_bits
wrapping_add half a b =
    of_bits half ((to_bits (half + half) a + to_bits (half + half) b) % (half + half))

-- `wrapping_add` of unsigned integers.
unfoldable pub wrapping_add_unsigned : (modulus : ℕ) → ℕ → ℕ → ℕ
wrapping_add_unsigned modulus a b = (a + b) % modulus

module _ ⦃ext : External⦄ where
  -- Rust's `+` on floating-point numbers.
  pub record Floats : Type 0 where
    pub add_f32 : ext.F32 → ext.F32 → ext.F32
    pub add_f64 : ext.F64 → ext.F64 → ext.F64

  pub data AccumulatorValue : Type 0 where
    scalar : ScalarValue → AccumulatorValue
    avg_state : ext.F64 → ℤ → AccumulatorValue

module _ ⦃ext : External⦄ ⦃floats : Floats⦄ where
  unfoldable pub scalar_add : ScalarValue → ScalarValue → Outcome ScalarValue
  unfolding wrapping_add wrapping_add_unsigned
  scalar_add (int8 x) (int8 y) = ok (int8 (wrapping_add (2 ^ 7) x y))
  scalar_add (int16 x) (int16 y) = ok (int16 (wrapping_add (2 ^ 15) x y))
  scalar_add (int32 x) (int32 y) = ok (int32 (wrapping_add (2 ^ 31) x y))
  scalar_add (int64 x) (int64 y) = ok (int64 (wrapping_add (2 ^ 63) x y))
  scalar_add (uint8 x) (uint8 y) = ok (uint8 (wrapping_add_unsigned (2 ^ 8) x y))
  scalar_add (uint16 x) (uint16 y) = ok (uint16 (wrapping_add_unsigned (2 ^ 16) x y))
  scalar_add (uint32 x) (uint32 y) = ok (uint32 (wrapping_add_unsigned (2 ^ 32) x y))
  scalar_add (uint64 x) (uint64 y) = ok (uint64 (wrapping_add_unsigned (2 ^ 64) x y))
  scalar_add (float32 x) (float32 y) = ok (float32 (floats.add_f32 x y))
  scalar_add (float64 x) (float64 y) = ok (float64 (floats.add_f64 x y))
  scalar_add _ _ = err (not_implemented "SUM is not implemented for type")

  -- `SumAccumulator::accumulate`: the state after a value.
  unfoldable pub accumulate : ScalarValue → ScalarValue → Outcome ScalarValue
  unfolding scalar_add
  accumulate state value =
      if is_null value then ok state else if is_null state then ok value else scalar_add state value

  -- `Accumulator::intermediate_value` of a SUM, whose final value is its state.
  unfoldable pub intermediate_value : ScalarValue → Outcome AccumulatorValue
  intermediate_value state = ok (scalar state)

  -- `SumAccumulator::merge`.
  unfoldable pub merge : ScalarValue → AccumulatorValue → Outcome ScalarValue
  unfolding accumulate
  merge state (scalar v) = accumulate state v
  merge state (avg_state total count) = ok state

  -- The values of a group one after another, as a mode that is not final feeds
  -- them to one accumulator.
  unfoldable pub accumulate_all : ScalarValue → List ScalarValue → Outcome ScalarValue
  unfolding accumulate
  accumulate_all state [] = ok state
  accumulate_all state (v ∷ vs) = do next ← accumulate state v; accumulate_all next vs
