-- ===== src/Accumulator/Kinds.antt =====
-- The accumulators of fdapquery-physical-expr/src/min_expression.rs, max_expression.rs,
-- avg_expression.rs and count_expression.rs beside that of sum_expression.rs, with
-- aggregate_expression.rs and the conversions of expressions.rs. An `i32` counter wraps around, as it
-- does in a build without overflow checks.
use fdapquery.Base.{
  ℕ, ◌^◌, String, Bool, true, false, Option, some, ℤ, pos, negsuc, ltb, ◌==◌, text_eq, text_leb,
  if◌then◌else◌,
}
use fdapquery.External.{External}
use fdapquery.Errors.{Outcome, ok, err, ◌>>=◌, not_implemented, internal}
use fdapquery.Scalar.{ScalarValue, is_null}
use fdapquery.PhysicalExpr.{AggregateExpr}
use fdapquery.Accumulator.{
  Floats, AccumulatorValue, scalar, avg_state, wrapping_add, to_bits, of_bits,
  accumulate as accumulate_sum, merge as merge_sum,
}

pub data Ordering : Type 0 where
  less equal greater : Ordering

-- `cmp` of numbers, integers and texts.
unfoldable pub cmp_nat : ℕ → ℕ → Ordering
cmp_nat m n = if ltb m n then less else if m == n then equal else greater

unfoldable pub cmp_int : ℤ → ℤ → Ordering
unfolding cmp_nat
cmp_int (pos m) (pos n) = cmp_nat m n
cmp_int (pos m) (negsuc n) = greater
cmp_int (negsuc m) (pos n) = less
cmp_int (negsuc m) (negsuc n) = cmp_nat n m

unfoldable pub cmp_text : String → String → Ordering
cmp_text a b = if text_eq a b then equal else if text_leb a b then less else greater

unfoldable pub is_less : Option Ordering → Bool
is_less (some less) = true
is_less _ = false

unfoldable pub is_greater : Option Ordering → Bool
is_greater (some greater) = true
is_greater _ = false

module _ ⦃ext : External⦄ where
  -- What Rust does with floating-point numbers, besides `+`.
  pub record Conversions : Type 0 where
    pub partial_cmp_f32 : ext.F32 → ext.F32 → Option Ordering
    pub partial_cmp_f64 : ext.F64 → ext.F64 → Option Ordering
    pub zero_f64 : ext.F64
    pub of_int : ℤ → ext.F64
    pub of_f32 : ext.F32 → ext.F64
    pub truncate_f32 : ext.F32 → ℤ
    pub truncate_f64 : ext.F64 → ℤ
    pub divide : ext.F64 → ext.F64 → ext.F64

  pub data Accumulator : Type 0 where
    min_accumulator max_accumulator sum_accumulator : ScalarValue → Accumulator
    avg_accumulator : (sum : ext.F64) → (count : ℤ) → Accumulator
    count_accumulator : ℤ → Accumulator

module _ ⦃ext : External⦄ ⦃floats : Floats⦄ ⦃conversions : Conversions⦄ where
  unfoldable pub create_accumulator : AggregateExpr → Accumulator
  create_accumulator (AggregateExpr.max_expr e) = max_accumulator ScalarValue.null
  create_accumulator (AggregateExpr.min_expr e) = min_accumulator ScalarValue.null
  create_accumulator (AggregateExpr.sum_expr e) = sum_accumulator ScalarValue.null
  create_accumulator (AggregateExpr.avg_expr e) = avg_accumulator conversions.zero_f64 (pos 0)
  create_accumulator (AggregateExpr.count_expr e) = count_accumulator (pos 0)

  unfoldable pub cmp_scalar : ScalarValue → ScalarValue → Outcome (Option Ordering)
  unfolding cmp_int cmp_nat cmp_text
  cmp_scalar (ScalarValue.int8 x) (ScalarValue.int8 y) = ok (some (cmp_int x y))
  cmp_scalar (ScalarValue.int16 x) (ScalarValue.int16 y) = ok (some (cmp_int x y))
  cmp_scalar (ScalarValue.int32 x) (ScalarValue.int32 y) = ok (some (cmp_int x y))
  cmp_scalar (ScalarValue.int64 x) (ScalarValue.int64 y) = ok (some (cmp_int x y))
  cmp_scalar (ScalarValue.uint8 x) (ScalarValue.uint8 y) = ok (some (cmp_nat x y))
  cmp_scalar (ScalarValue.uint16 x) (ScalarValue.uint16 y) = ok (some (cmp_nat x y))
  cmp_scalar (ScalarValue.uint32 x) (ScalarValue.uint32 y) = ok (some (cmp_nat x y))
  cmp_scalar (ScalarValue.uint64 x) (ScalarValue.uint64 y) = ok (some (cmp_nat x y))
  cmp_scalar (ScalarValue.float32 x) (ScalarValue.float32 y) = ok (conversions.partial_cmp_f32 x y)
  cmp_scalar (ScalarValue.float64 x) (ScalarValue.float64 y) = ok (conversions.partial_cmp_f64 x y)
  cmp_scalar (ScalarValue.utf8 x) (ScalarValue.utf8 y) = ok (some (cmp_text x y))
  cmp_scalar (ScalarValue.date32 x) (ScalarValue.date32 y) = ok (some (cmp_int x y))
  cmp_scalar _ _ = err (not_implemented "MIN/MAX is not implemented for type")

  unfoldable pub scalar_lt : ScalarValue → ScalarValue → Outcome Bool
  unfolding cmp_scalar is_less
  scalar_lt a b = do ordering ← cmp_scalar a b; ok (is_less ordering)

  unfoldable pub scalar_gt : ScalarValue → ScalarValue → Outcome Bool
  unfolding cmp_scalar is_greater
  scalar_gt a b = do ordering ← cmp_scalar a b; ok (is_greater ordering)

  -- `u64 as i64` keeps the bits.
  unfoldable pub number_to_i64 : ScalarValue → Outcome ℤ
  number_to_i64 (ScalarValue.int8 n) = ok n
  number_to_i64 (ScalarValue.int16 n) = ok n
  number_to_i64 (ScalarValue.int32 n) = ok n
  number_to_i64 (ScalarValue.int64 n) = ok n
  number_to_i64 (ScalarValue.uint8 n) = ok (pos n)
  number_to_i64 (ScalarValue.uint16 n) = ok (pos n)
  number_to_i64 (ScalarValue.uint32 n) = ok (pos n)
  number_to_i64 (ScalarValue.uint64 n) = ok (of_bits (2 ^ 63) n)
  number_to_i64 (ScalarValue.float32 f) = ok (conversions.truncate_f32 f)
  number_to_i64 (ScalarValue.float64 f) = ok (conversions.truncate_f64 f)
  number_to_i64 (ScalarValue.date32 d) = ok d
  number_to_i64 _ = err (internal "number_to_i64: expected a number")

  unfoldable pub number_to_f64 : ScalarValue → Outcome ext.F64
  number_to_f64 (ScalarValue.int8 n) = ok (conversions.of_int n)
  number_to_f64 (ScalarValue.int16 n) = ok (conversions.of_int n)
  number_to_f64 (ScalarValue.int32 n) = ok (conversions.of_int n)
  number_to_f64 (ScalarValue.int64 n) = ok (conversions.of_int n)
  number_to_f64 (ScalarValue.uint8 n) = ok (conversions.of_int (pos n))
  number_to_f64 (ScalarValue.uint16 n) = ok (conversions.of_int (pos n))
  number_to_f64 (ScalarValue.uint32 n) = ok (conversions.of_int (pos n))
  number_to_f64 (ScalarValue.uint64 n) = ok (conversions.of_int (pos n))
  number_to_f64 (ScalarValue.float32 f) = ok (conversions.of_f32 f)
  number_to_f64 (ScalarValue.float64 f) = ok f
  number_to_f64 _ = err (internal "number_to_f64: expected a number")

  -- `i64 as i32` keeps the low bits.
  unfoldable pub to_i32 : ℤ → ℤ
  to_i32 n = of_bits (2 ^ 31) (to_bits (2 ^ 32) n)

  -- The extremum that is kept: the value if there is none yet, or if it wins.
  unfoldable pub keep_if :
      (ScalarValue → ScalarValue → Outcome Bool) → ScalarValue → ScalarValue → Outcome ScalarValue
  keep_if wins state value =
      if is_null value
      then ok state
      else if is_null state
      then ok value
      else wins value state >>= λ w. ok (if w then value else state)

  unfoldable pub accumulate : Accumulator → ScalarValue → Outcome Accumulator
  unfolding keep_if scalar_lt scalar_gt wrapping_add number_to_f64
  accumulate (min_accumulator state) value =
      keep_if scalar_lt state value >>= λ s. ok (min_accumulator s)
  accumulate (max_accumulator state) value =
      keep_if scalar_gt state value >>= λ s. ok (max_accumulator s)
  accumulate (sum_accumulator state) value =
      accumulate_sum state value >>= λ s. ok (sum_accumulator s)
  accumulate (avg_accumulator sum count) value =
      if is_null value
      then ok (avg_accumulator sum count)
      else number_to_f64 value >>= λ x.
          ok (avg_accumulator (floats.add_f64 sum x) (wrapping_add (2 ^ 31) count (pos 1)))
  accumulate (count_accumulator count) value =
      if is_null value
      then ok (count_accumulator count)
      else ok (count_accumulator (wrapping_add (2 ^ 31) count (pos 1)))

  unfoldable pub is_zero : ℤ → Bool
  is_zero (pos n) = n == 0
  is_zero (negsuc n) = false

  unfoldable pub final_value : Accumulator → Outcome ScalarValue
  unfolding is_zero
  final_value (min_accumulator state) = ok state
  final_value (max_accumulator state) = ok state
  final_value (sum_accumulator state) = ok state
  final_value (avg_accumulator sum count) =
      if is_zero count
      then ok ScalarValue.null
      else ok (ScalarValue.float64 (conversions.divide sum (conversions.of_int count)))
  final_value (count_accumulator count) = ok (ScalarValue.int32 count)

  unfoldable pub intermediate_value : Accumulator → Outcome AccumulatorValue
  unfolding final_value is_zero
  intermediate_value (avg_accumulator sum count) =
      if is_zero count then ok (scalar ScalarValue.null) else ok (avg_state sum count)
  intermediate_value acc = final_value acc >>= λ v. ok (scalar v)

  -- A number that is merged into a count.
  unfoldable pub merge_count : ℤ → ScalarValue → Outcome ℤ
  unfolding number_to_i64 to_i32
  merge_count count value =
      if is_null value
      then ok count
      else number_to_i64 value >>= λ n. ok (wrapping_add (2 ^ 31) count (to_i32 n))

  unfoldable pub merge : Accumulator → AccumulatorValue → Outcome Accumulator
  unfolding accumulate merge_count
  merge (min_accumulator state) (scalar v) = accumulate (min_accumulator state) v
  merge (max_accumulator state) (scalar v) = accumulate (max_accumulator state) v
  merge (sum_accumulator state) other = merge_sum state other >>= λ s. ok (sum_accumulator s)
  merge (avg_accumulator sum count) (avg_state s c) =
      ok (avg_accumulator (floats.add_f64 sum s) (wrapping_add (2 ^ 31) count c))
  merge (avg_accumulator sum count) (scalar v) =
      if is_null v
      then ok (avg_accumulator sum count)
      else err (internal "AvgAccumulator::merge: cannot merge AVG with")
  merge (count_accumulator count) (scalar v) = merge_count count v >>= λ c. ok (count_accumulator c)
  merge (min_accumulator state) (avg_state s c) = ok (min_accumulator state)
  merge (max_accumulator state) (avg_state s c) = ok (max_accumulator state)
  merge (count_accumulator count) (avg_state s c) = ok (count_accumulator count)
