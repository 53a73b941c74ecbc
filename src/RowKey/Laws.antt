-- ===== src/RowKey/Laws.antt =====
-- Equality of keys (fdapquery-physical-plan/src/row_key.rs).
use fdapquery.Base.{ℕ, ℤ, Bool, true, false, ◌≡◌, ◌↔◌, refl, ap, List, [], ◌∷◌, eq_iff, arith}
use fdapquery.External.{External}
use fdapquery.Scalar.{ScalarValue}
use fdapquery.Rows.{Row}
use fdapquery.RowKey.{Hashing, bool_eq, int_eq, bytes_eq, scalar_eq, row_eq, hash_row}

bool_eq_iff : (a b : Bool) → (bool_eq a b ≡ true) ↔ (a ≡ b)
unfolding bool_eq
bool_eq_iff true true = (λ h. refl, λ h. refl)
bool_eq_iff false false = (λ h. refl, λ h. refl)
bool_eq_iff true false = (λ h. cc, λ h. cc)
bool_eq_iff false true = (λ h. cc, λ h. cc)

int_eq_iff : (a b : ℤ) → (int_eq a b ≡ true) ↔ (a ≡ b)
unfolding int_eq
int_eq_iff a b = ground arith

bytes_eq_iff : (a b : List ℕ) → (bytes_eq a b ≡ true) ↔ (a ≡ b)
unfolding bytes_eq
bytes_eq_iff [] [] = (λ h. refl, λ h. refl)
bytes_eq_iff [] (n ∷ ns) = (λ h. cc, λ h. cc)
bytes_eq_iff (m ∷ ms) [] = (λ h. cc, λ h. cc)
bytes_eq_iff (m ∷ ms) (n ∷ ns) = ground (arith, bytes_eq_iff ms ns)

module _ ⦃ext : External⦄ ⦃hashing : Hashing⦄ where
  scalar_eq_iff : (a b : ScalarValue) → (scalar_eq a b ≡ true) ↔ (a ≡ b)
  unfolding scalar_eq
  scalar_eq_iff ScalarValue.null ScalarValue.null = (λ h. refl, λ h. refl)
  scalar_eq_iff (ScalarValue.boolean a) (ScalarValue.boolean b) = ground (arith, bool_eq_iff a b)
  scalar_eq_iff (ScalarValue.int8 a) (ScalarValue.int8 b) = ground (arith, int_eq_iff a b)
  scalar_eq_iff (ScalarValue.int16 a) (ScalarValue.int16 b) = ground (arith, int_eq_iff a b)
  scalar_eq_iff (ScalarValue.int32 a) (ScalarValue.int32 b) = ground (arith, int_eq_iff a b)
  scalar_eq_iff (ScalarValue.int64 a) (ScalarValue.int64 b) = ground (arith, int_eq_iff a b)
  scalar_eq_iff (ScalarValue.uint8 a) (ScalarValue.uint8 b) = ground arith
  scalar_eq_iff (ScalarValue.uint16 a) (ScalarValue.uint16 b) = ground arith
  scalar_eq_iff (ScalarValue.uint32 a) (ScalarValue.uint32 b) = ground arith
  scalar_eq_iff (ScalarValue.uint64 a) (ScalarValue.uint64 b) = ground arith
  scalar_eq_iff (ScalarValue.float32 a) (ScalarValue.float32 b) =
      ground (arith, hashing.f32_bits-injective a b)
  scalar_eq_iff (ScalarValue.float64 a) (ScalarValue.float64 b) =
      ground (arith, hashing.f64_bits-injective a b)
  scalar_eq_iff (ScalarValue.utf8 a) (ScalarValue.utf8 b) = ground (arith, eq_iff a b)
  scalar_eq_iff (ScalarValue.binary a) (ScalarValue.binary b) = ground (arith, bytes_eq_iff a b)
  scalar_eq_iff (ScalarValue.date32 a) (ScalarValue.date32 b) = ground (arith, int_eq_iff a b)
  scalar_eq_iff _ _ = (λ h. cc, λ h. cc)

  -- Keys compare equal exactly when they are the same row, a null like any other value.
  pub row_eq_iff : (a b : Row) → (row_eq a b ≡ true) ↔ (a ≡ b)
  unfolding row_eq
  row_eq_iff [] [] = (λ h. refl, λ h. refl)
  row_eq_iff [] (b ∷ bs) = (λ h. cc, λ h. cc)
  row_eq_iff (a ∷ vs) [] = (λ h. cc, λ h. cc)
  row_eq_iff (a ∷ vs) (b ∷ bs) = ground (arith, scalar_eq_iff a b, row_eq_iff vs bs)

  -- Keys that compare equal hash equally.
  pub row_eq-hash_row : (a b : Row) → row_eq a b ≡ true → hash_row a ≡ hash_row b
  row_eq-hash_row a b h = ap hash_row ((row_eq_iff a b).0 h)
