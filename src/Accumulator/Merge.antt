-- ===== src/Accumulator/Merge.antt =====
-- fdapquery-physical-expr/src/sum_expression.rs: a SUM computed in parts.
use fdapquery.Base.{
  ℕ, ◌^◌, ◌≡◌, refl, sym, ◌∙◌, ap, Option, none, some, List, [], ◌∷◌, ◌++◌, map, ℤ, false, arith,
}
use fdapquery.External.{External}
use fdapquery.Errors.{ok, ◌>>=◌}
use fdapquery.Scalar.{
  ScalarValue, null, int8, int16, int32, int64, uint8, uint16, uint32, uint64, is_null,
}
use fdapquery.Accumulator.{
  Floats, accumulate, accumulate_all, intermediate_value, merge, wrapping_add,
  wrapping_add_unsigned,
}
use fdapquery.Accumulator.Wrapping.{wrapping_add_assoc, wrapping_add_unsigned_assoc}

-- The integer types of a column.
pub data IntegerType : Type 0 where
  i8 i16 i32 i64 u8 u16 u32 u64 : IntegerType

abbrev pub Integer : IntegerType → Type 0
Integer IntegerType.i8 = ℤ
Integer IntegerType.i16 = ℤ
Integer IntegerType.i32 = ℤ
Integer IntegerType.i64 = ℤ
Integer IntegerType.u8 = ℕ
Integer IntegerType.u16 = ℕ
Integer IntegerType.u32 = ℕ
Integer IntegerType.u64 = ℕ

abbrev pub add : (t : IntegerType) → Integer t → Integer t → Integer t
add IntegerType.i8 x y = wrapping_add (2 ^ 7) x y
add IntegerType.i16 x y = wrapping_add (2 ^ 15) x y
add IntegerType.i32 x y = wrapping_add (2 ^ 31) x y
add IntegerType.i64 x y = wrapping_add (2 ^ 63) x y
add IntegerType.u8 x y = wrapping_add_unsigned (2 ^ 8) x y
add IntegerType.u16 x y = wrapping_add_unsigned (2 ^ 16) x y
add IntegerType.u32 x y = wrapping_add_unsigned (2 ^ 32) x y
add IntegerType.u64 x y = wrapping_add_unsigned (2 ^ 64) x y

add_assoc : (t : IntegerType) (x y z : Integer t) → add t (add t x y) z ≡ add t x (add t y z)
add_assoc IntegerType.i8 x y z = wrapping_add_assoc (2 ^ 7) x y z (omega arith)
add_assoc IntegerType.i16 x y z = wrapping_add_assoc (2 ^ 15) x y z (omega arith)
add_assoc IntegerType.i32 x y z = wrapping_add_assoc (2 ^ 31) x y z (omega arith)
add_assoc IntegerType.i64 x y z = wrapping_add_assoc (2 ^ 63) x y z (omega arith)
add_assoc IntegerType.u8 x y z = wrapping_add_unsigned_assoc (2 ^ 8) x y z
add_assoc IntegerType.u16 x y z = wrapping_add_unsigned_assoc (2 ^ 16) x y z
add_assoc IntegerType.u32 x y z = wrapping_add_unsigned_assoc (2 ^ 32) x y z
add_assoc IntegerType.u64 x y z = wrapping_add_unsigned_assoc (2 ^ 64) x y z

-- A sum where none is no value yet.
abbrev pub add_option :
    (t : IntegerType) → Option (Integer t) → Option (Integer t) → Option (Integer t)
add_option t none o = o
add_option t (some x) none = some x
add_option t (some x) (some y) = some (add t x y)

add_option_assoc :
    (t : IntegerType) (o p q : Option (Integer t))
    → add_option t (add_option t o p) q ≡ add_option t o (add_option t p q)
add_option_assoc t none p q = refl
add_option_assoc t (some x) none q = refl
add_option_assoc t (some x) (some y) none = refl
add_option_assoc t (some x) (some y) (some z) = ap some (add_assoc t x y z)

add_option-none : (t : IntegerType) (o : Option (Integer t)) → add_option t o none ≡ o
add_option-none t none = refl
add_option-none t (some x) = refl

-- The sum of the values of a column, nulls left out.
abbrev pub column_sum : (t : IntegerType) → List (Option (Integer t)) → Option (Integer t)
column_sum t [] = none
column_sum t (o ∷ os) = add_option t o (column_sum t os)

column_sum-append :
    (t : IntegerType) (os ps : List (Option (Integer t)))
    → column_sum t (os ++ ps) ≡ add_option t (column_sum t os) (column_sum t ps)
column_sum-append t [] ps = refl
column_sum-append t (o ∷ os) ps =
    ap (add_option t o) (column_sum-append t os ps)
    ∙ sym (add_option_assoc t o (column_sum t os) (column_sum t ps))

module _ ⦃ext : External⦄ ⦃floats : Floats⦄ where
  abbrev pub integer : (t : IntegerType) → Integer t → ScalarValue
  integer IntegerType.i8 x = int8 x
  integer IntegerType.i16 x = int16 x
  integer IntegerType.i32 x = int32 x
  integer IntegerType.i64 x = int64 x
  integer IntegerType.u8 x = uint8 x
  integer IntegerType.u16 x = uint16 x
  integer IntegerType.u32 x = uint32 x
  integer IntegerType.u64 x = uint64 x

  abbrev pub nullable : (t : IntegerType) → Option (Integer t) → ScalarValue
  nullable t none = null
  nullable t (some x) = integer t x

  scalar_add-integer :
      (t : IntegerType) (x y : Integer t)
      → accumulate (integer t x) (integer t y) ≡ ok (integer t (add t x y))
  unfolding accumulate is_null
  scalar_add-integer IntegerType.i8 x y = refl
  scalar_add-integer IntegerType.i16 x y = refl
  scalar_add-integer IntegerType.i32 x y = refl
  scalar_add-integer IntegerType.i64 x y = refl
  scalar_add-integer IntegerType.u8 x y = refl
  scalar_add-integer IntegerType.u16 x y = refl
  scalar_add-integer IntegerType.u32 x y = refl
  scalar_add-integer IntegerType.u64 x y = refl

  is_null-integer : (t : IntegerType) (x : Integer t) → is_null (integer t x) ≡ false
  unfolding is_null
  is_null-integer IntegerType.i8 x = refl
  is_null-integer IntegerType.i16 x = refl
  is_null-integer IntegerType.i32 x = refl
  is_null-integer IntegerType.i64 x = refl
  is_null-integer IntegerType.u8 x = refl
  is_null-integer IntegerType.u16 x = refl
  is_null-integer IntegerType.u32 x = refl
  is_null-integer IntegerType.u64 x = refl

  accumulate-nullable :
      (t : IntegerType) (o p : Option (Integer t))
      → accumulate (nullable t o) (nullable t p) ≡ ok (nullable t (add_option t o p))
  unfolding accumulate is_null
  accumulate-nullable t none none = refl
  accumulate-nullable t none (some y) = rw (is_null-integer t y) refl
  accumulate-nullable t (some x) none = refl
  accumulate-nullable t (some x) (some y) = scalar_add-integer t x y

  accumulate_all-from :
      (t : IntegerType) (o : Option (Integer t)) (ps : List (Option (Integer t)))
      → accumulate_all (nullable t o) (map (nullable t) ps)
        ≡ ok (nullable t (add_option t o (column_sum t ps)))
  unfolding accumulate_all
  accumulate_all-from t o [] = ap (λ x. ok (nullable t x)) (sym (add_option-none t o))
  accumulate_all-from t o (p ∷ ps) = rw (accumulate-nullable t o p) (
      accumulate_all-from t (add_option t o p) ps
      ∙ ap (λ x. ok (nullable t x)) (add_option_assoc t o p (column_sum t ps)))

  -- A SUM over an integer column with nulls always answers, with the wrapping sum of the values that
  -- are not null, and null where there are none. Computed in two parts whose partial states are
  -- merged, it is what it is over the whole column.
  pub merge-accumulate_all :
      (t : IntegerType) (os ps : List (Option (Integer t)))
      → (accumulate_all null (map (nullable t) (os ++ ps))
          ≡ ok (nullable t (column_sum t (os ++ ps))))
        × ((do
          state ← accumulate_all null (map (nullable t) os)
          other ← accumulate_all null (map (nullable t) ps)
          part ← intermediate_value other
          merge state part)
            ≡ accumulate_all null (map (nullable t) (os ++ ps)))
  unfolding intermediate_value merge
  merge-accumulate_all t os ps = (
    accumulate_all-from t none (os ++ ps),
    rw (accumulate_all-from t none os, accumulate_all-from t none ps)
        (accumulate-nullable t (column_sum t os) (column_sum t ps)
          ∙ ap (λ x. ok (nullable t x)) (sym (column_sum-append t os ps))
          ∙ sym (accumulate_all-from t none (os ++ ps))),
  )
