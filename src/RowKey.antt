-- ===== src/RowKey.antt =====
-- fdapquery-physical-plan/src/row_key.rs: rows as keys of a hash map. A float is compared and hashed
-- by its bits. `Feed` is what is handed to a hasher by a call of `hash`, and a hasher's result is a
-- function of what it was fed.
pub mod Laws
use fdapquery.Base.{
  ℕ, ℤ, pos, negsuc, String, Bool, true, false, ◌&&◌, ◌≡◌, List, [], ◌∷◌, ◌++◌, ◌==◌, text_eq,
}
use mathlib.Core.List.{Permᴰ}
use fdapquery.External.{External}
use fdapquery.Scalar.{ScalarValue}
use fdapquery.Rows.{Row}

pub data Feed : Type 0 where
  discriminant : ℕ → Feed
  bool : Bool → Feed
  i8 i16 i32 i64 : ℤ → Feed
  u8 u16 u32 u64 : ℕ → Feed
  str : String → Feed
  bytes : List ℕ → Feed

module _ ⦃ext : External⦄ where
  -- `to_bits`, `DefaultHasher`, and the order in which a `HashMap` is iterated.
  pub record Hashing : Type 1 where
    pub f32_bits : ext.F32 → ℕ
    pub f64_bits : ext.F64 → ℕ
    pub finish : List Feed → ℕ
    pub iterate : {A : Type 0} → List A → List A
    pub iterate-perm : {A : Type 0} (xs : List A) → Permᴰ (iterate xs) xs
    -- A float is its bits.
    pub f32_bits-injective : (x y : ext.F32) → f32_bits x ≡ f32_bits y → x ≡ y
    pub f64_bits-injective : (x y : ext.F64) → f64_bits x ≡ f64_bits y → x ≡ y

unfoldable pub bool_eq : Bool → Bool → Bool
bool_eq true true = true
bool_eq false false = true
bool_eq _ _ = false

unfoldable pub int_eq : ℤ → ℤ → Bool
int_eq (pos m) (pos n) = m == n
int_eq (negsuc m) (negsuc n) = m == n
int_eq _ _ = false

unfoldable pub bytes_eq : List ℕ → List ℕ → Bool
bytes_eq [] [] = true
bytes_eq (m ∷ ms) (n ∷ ns) = m == n && bytes_eq ms ns
bytes_eq _ _ = false

module _ ⦃ext : External⦄ ⦃hashing : Hashing⦄ where
  unfoldable pub scalar_eq : ScalarValue → ScalarValue → Bool
  unfolding bool_eq int_eq bytes_eq
  scalar_eq ScalarValue.null ScalarValue.null = true
  scalar_eq (ScalarValue.boolean a) (ScalarValue.boolean b) = bool_eq a b
  scalar_eq (ScalarValue.int8 a) (ScalarValue.int8 b) = int_eq a b
  scalar_eq (ScalarValue.int16 a) (ScalarValue.int16 b) = int_eq a b
  scalar_eq (ScalarValue.int32 a) (ScalarValue.int32 b) = int_eq a b
  scalar_eq (ScalarValue.int64 a) (ScalarValue.int64 b) = int_eq a b
  scalar_eq (ScalarValue.uint8 a) (ScalarValue.uint8 b) = a == b
  scalar_eq (ScalarValue.uint16 a) (ScalarValue.uint16 b) = a == b
  scalar_eq (ScalarValue.uint32 a) (ScalarValue.uint32 b) = a == b
  scalar_eq (ScalarValue.uint64 a) (ScalarValue.uint64 b) = a == b
  scalar_eq (ScalarValue.float32 a) (ScalarValue.float32 b) =
      hashing.f32_bits a == hashing.f32_bits b
  scalar_eq (ScalarValue.float64 a) (ScalarValue.float64 b) =
      hashing.f64_bits a == hashing.f64_bits b
  scalar_eq (ScalarValue.utf8 a) (ScalarValue.utf8 b) = text_eq a b
  scalar_eq (ScalarValue.binary a) (ScalarValue.binary b) = bytes_eq a b
  scalar_eq (ScalarValue.date32 a) (ScalarValue.date32 b) = int_eq a b
  scalar_eq _ _ = false

  -- `RowKey::eq`: of one length, and equal at each position.
  unfoldable pub row_eq : Row → Row → Bool
  unfolding scalar_eq
  row_eq [] [] = true
  row_eq (a ∷ vs) (b ∷ bs) = scalar_eq a b && row_eq vs bs
  row_eq _ _ = false

  unfoldable pub hash_scalar : ScalarValue → List Feed
  hash_scalar ScalarValue.null = discriminant 0 ∷ []
  hash_scalar (ScalarValue.boolean b) = discriminant 1 ∷ bool b ∷ []
  hash_scalar (ScalarValue.int8 n) = discriminant 2 ∷ i8 n ∷ []
  hash_scalar (ScalarValue.int16 n) = discriminant 3 ∷ i16 n ∷ []
  hash_scalar (ScalarValue.int32 n) = discriminant 4 ∷ i32 n ∷ []
  hash_scalar (ScalarValue.int64 n) = discriminant 5 ∷ i64 n ∷ []
  hash_scalar (ScalarValue.uint8 n) = discriminant 6 ∷ u8 n ∷ []
  hash_scalar (ScalarValue.uint16 n) = discriminant 7 ∷ u16 n ∷ []
  hash_scalar (ScalarValue.uint32 n) = discriminant 8 ∷ u32 n ∷ []
  hash_scalar (ScalarValue.uint64 n) = discriminant 9 ∷ u64 n ∷ []
  hash_scalar (ScalarValue.float32 f) = discriminant 10 ∷ u32 (hashing.f32_bits f) ∷ []
  hash_scalar (ScalarValue.float64 f) = discriminant 11 ∷ u64 (hashing.f64_bits f) ∷ []
  hash_scalar (ScalarValue.utf8 s) = discriminant 12 ∷ str s ∷ []
  hash_scalar (ScalarValue.binary b) = discriminant 13 ∷ bytes b ∷ []
  hash_scalar (ScalarValue.date32 d) = discriminant 14 ∷ i32 d ∷ []

  -- `RowKey::hash`.
  unfoldable pub hash_row : Row → List Feed
  unfolding hash_scalar
  hash_row [] = []
  hash_row (v ∷ vs) = hash_scalar v ++ hash_row vs
