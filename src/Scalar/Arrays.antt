-- ===== src/Scalar/Arrays.antt =====
-- fdapquery-common/src/scalar_value.rs: a scalar as a column, and a cell of a column as a scalar.
use fdapquery.Base.{
  Bool, ◌∙◌, ℕ, zero, suc, ◌<◌, ◌≡◌, refl, ap, true, false, Option, none, some, List, [], ◌∷◌,
  concat, decimal, length, get_elem?, leb, if◌then◌else◌, arith,
}
use fdapquery.External.{External}
use fdapquery.Arrow.{Kind, Native, is_none_at, Arrow}
use fdapquery.Errors.{Outcome, ok, err, internal, not_implemented}
use fdapquery.Scalar.{ScalarValue, is_null}

unfoldable pub replicate {ℓ} : {A : Type ℓ} → ℕ → A → List A
replicate zero a = []
replicate (suc n) a = a ∷ replicate n a

pub length-replicate {ℓ} : {A : Type ℓ} (n : ℕ) (a : A) → length (replicate n a) ≡ n
unfolding replicate
length-replicate zero a = refl
length-replicate (suc n) a = ap suc (length-replicate n a)

pub get_elem?-replicate {ℓ} :
    {A : Type ℓ} (n i : ℕ) (a : A) → i < n → get_elem? (replicate n a) i ≡ some a
unfolding replicate
get_elem?-replicate zero i a h = absurd (omega arith)
get_elem?-replicate (suc n) zero a h = refl
get_elem?-replicate (suc n) (suc i) a h = get_elem?-replicate n i a (omega arith)

is_none : {A : Type 0} → Option A → Bool
is_none none = true
is_none (some v) = false

is_none_at-eq :
    {A : Type 0} (xs : List (Option A)) (i : ℕ) {o : Option A}
    → get_elem? xs i ≡ some o
    → is_none_at xs i ≡ is_none o
unfolding is_none
is_none_at-eq xs i {o = none} h = rw (is_none_at, h) refl
is_none_at-eq xs i {o = some v} h = rw (is_none_at, h) refl

lt→leb : (i n : ℕ) → i < n → leb n i ≡ false
lt→leb i n h = ground arith

module _ ⦃ext : External⦄ where
  -- The scalar of a cell's value.
  unfoldable pub scalar_of : (k : Kind) → Native k → ScalarValue
  scalar_of Kind.boolean v = ScalarValue.boolean v
  scalar_of Kind.int8 v = ScalarValue.int8 v
  scalar_of Kind.int16 v = ScalarValue.int16 v
  scalar_of Kind.int32 v = ScalarValue.int32 v
  scalar_of Kind.int64 v = ScalarValue.int64 v
  scalar_of Kind.uint8 v = ScalarValue.uint8 v
  scalar_of Kind.uint16 v = ScalarValue.uint16 v
  scalar_of Kind.uint32 v = ScalarValue.uint32 v
  scalar_of Kind.uint64 v = ScalarValue.uint64 v
  scalar_of Kind.float32 v = ScalarValue.float32 v
  scalar_of Kind.float64 v = ScalarValue.float64 v
  scalar_of Kind.utf8 v = ScalarValue.utf8 v
  scalar_of Kind.binary v = ScalarValue.binary v
  scalar_of Kind.date32 v = ScalarValue.date32 v

  -- The scalar of a cell that may be null.
  unfoldable pub cell_of : (k : Kind) → Option (Native k) → ScalarValue
  cell_of k none = ScalarValue.null
  cell_of k (some v) = scalar_of k v

  pub is_null-scalar_of : (k : Kind) (v : Native k) → is_null (scalar_of k v) ≡ false
  unfolding scalar_of is_null
  is_null-scalar_of Kind.boolean v = refl
  is_null-scalar_of Kind.int8 v = refl
  is_null-scalar_of Kind.int16 v = refl
  is_null-scalar_of Kind.int32 v = refl
  is_null-scalar_of Kind.int64 v = refl
  is_null-scalar_of Kind.uint8 v = refl
  is_null-scalar_of Kind.uint16 v = refl
  is_null-scalar_of Kind.uint32 v = refl
  is_null-scalar_of Kind.uint64 v = refl
  is_null-scalar_of Kind.float32 v = refl
  is_null-scalar_of Kind.float64 v = refl
  is_null-scalar_of Kind.utf8 v = refl
  is_null-scalar_of Kind.binary v = refl
  is_null-scalar_of Kind.date32 v = refl

module _ ⦃ext : External⦄ ⦃arrow : Arrow⦄ where
  -- `ScalarValue::try_from_array`.
  unfoldable pub try_from_array : arrow.ArrayRef → ℕ → Outcome ScalarValue
  try_from_array array i =
      if leb (arrow.array_len array) i
      then err (
          internal (
            concat (
              "ScalarValue::try_from_array: index "
              ∷ decimal i
              ∷ " out of bounds (len "
              ∷ decimal (arrow.array_len array)
              ∷ ")"
              ∷ [])))
      else if arrow.is_null_at array i
      then ok ScalarValue.null
      else elim (arrow.kind_of (arrow.array_type array)) [
        | some k ↦ ok (scalar_of k (arrow.value k array i))
        | none ↦ err (
            not_implemented (
              concat (
                "ScalarValue::try_from_array: arrow data type "
                ∷ ext.debug_data_type (arrow.array_type array)
                ∷ " not supported"
                ∷ [])))
      ]

  -- The array that `size` rounds of `append_value`, or of `append_null`, build.
  repeat_value : (k : Kind) → Native k → ℕ → arrow.ArrayRef
  unfolding replicate
  repeat_value k v size = arrow.finish k (replicate size (some v))

  -- `ScalarValue::to_array_of_size`. A null has no type: it becomes a column of booleans.
  unfoldable pub to_array_of_size : ScalarValue → ℕ → arrow.ArrayRef
  unfolding repeat_value
  to_array_of_size ScalarValue.null size = arrow.finish Kind.boolean (replicate size none)
  to_array_of_size (ScalarValue.boolean v) size = repeat_value Kind.boolean v size
  to_array_of_size (ScalarValue.int8 v) size = repeat_value Kind.int8 v size
  to_array_of_size (ScalarValue.int16 v) size = repeat_value Kind.int16 v size
  to_array_of_size (ScalarValue.int32 v) size = repeat_value Kind.int32 v size
  to_array_of_size (ScalarValue.int64 v) size = repeat_value Kind.int64 v size
  to_array_of_size (ScalarValue.uint8 v) size = repeat_value Kind.uint8 v size
  to_array_of_size (ScalarValue.uint16 v) size = repeat_value Kind.uint16 v size
  to_array_of_size (ScalarValue.uint32 v) size = repeat_value Kind.uint32 v size
  to_array_of_size (ScalarValue.uint64 v) size = repeat_value Kind.uint64 v size
  to_array_of_size (ScalarValue.float32 v) size = repeat_value Kind.float32 v size
  to_array_of_size (ScalarValue.float64 v) size = repeat_value Kind.float64 v size
  to_array_of_size (ScalarValue.utf8 v) size = repeat_value Kind.utf8 v size
  to_array_of_size (ScalarValue.binary v) size = repeat_value Kind.binary v size
  to_array_of_size (ScalarValue.date32 v) size = repeat_value Kind.date32 v size

  -- A cell of a finished array reads as the scalar of what was appended there.
  pub try_from_array-finish :
      (k : Kind) (xs : List (Option (Native k))) (i : ℕ) (o : Option (Native k))
      → i < length xs
      → get_elem? xs i ≡ some o
      → try_from_array (arrow.finish k xs) i ≡ ok (cell_of k o)
  unfolding try_from_array cell_of is_none
  try_from_array-finish k xs i none lt h =
      rw
        (
          arrow.array_len-finish k xs,
          lt→leb i (length xs) lt,
          arrow.is_null_at-finish k xs i ∙ is_none_at-eq xs i h,
        )
        refl
  try_from_array-finish k xs i (some v) lt h =
      rw
        (
          arrow.array_len-finish k xs,
          lt→leb i (length xs) lt,
          arrow.is_null_at-finish k xs i ∙ is_none_at-eq xs i h,
          arrow.array_type-finish k xs,
          arrow.kind_of-type_of k,
          arrow.value-finish k xs i v h,
        )
        refl

  -- A column that repeats one cell.
  try_from_array-replicate :
      (k : Kind) (o : Option (Native k)) (size i : ℕ)
      → let array = arrow.finish k (replicate size o) in
        (arrow.array_len array ≡ size) × (i < size → try_from_array array i ≡ ok (cell_of k o))
  try_from_array-replicate k o size i = (
    arrow.array_len-finish k (replicate size o) ∙ length-replicate size o,
    λ h.
        try_from_array-finish k (replicate size o) i o (rw (length-replicate size o) h)
          (get_elem?-replicate size i o h),
  )

  -- A scalar's column reads as the scalar in every row, and has no other row.
  pub try_from_array-to_array_of_size :
      (v : ScalarValue) (size i : ℕ)
      → (arrow.array_len (to_array_of_size v size) ≡ size)
        × (i < size → try_from_array (to_array_of_size v size) i ≡ ok v)
  unfolding to_array_of_size repeat_value cell_of scalar_of
  try_from_array-to_array_of_size ScalarValue.null size i =
      try_from_array-replicate Kind.boolean none size i
  try_from_array-to_array_of_size (ScalarValue.boolean v) size i =
      try_from_array-replicate Kind.boolean (some v) size i
  try_from_array-to_array_of_size (ScalarValue.int8 v) size i =
      try_from_array-replicate Kind.int8 (some v) size i
  try_from_array-to_array_of_size (ScalarValue.int16 v) size i =
      try_from_array-replicate Kind.int16 (some v) size i
  try_from_array-to_array_of_size (ScalarValue.int32 v) size i =
      try_from_array-replicate Kind.int32 (some v) size i
  try_from_array-to_array_of_size (ScalarValue.int64 v) size i =
      try_from_array-replicate Kind.int64 (some v) size i
  try_from_array-to_array_of_size (ScalarValue.uint8 v) size i =
      try_from_array-replicate Kind.uint8 (some v) size i
  try_from_array-to_array_of_size (ScalarValue.uint16 v) size i =
      try_from_array-replicate Kind.uint16 (some v) size i
  try_from_array-to_array_of_size (ScalarValue.uint32 v) size i =
      try_from_array-replicate Kind.uint32 (some v) size i
  try_from_array-to_array_of_size (ScalarValue.uint64 v) size i =
      try_from_array-replicate Kind.uint64 (some v) size i
  try_from_array-to_array_of_size (ScalarValue.float32 v) size i =
      try_from_array-replicate Kind.float32 (some v) size i
  try_from_array-to_array_of_size (ScalarValue.float64 v) size i =
      try_from_array-replicate Kind.float64 (some v) size i
  try_from_array-to_array_of_size (ScalarValue.utf8 v) size i =
      try_from_array-replicate Kind.utf8 (some v) size i
  try_from_array-to_array_of_size (ScalarValue.binary v) size i =
      try_from_array-replicate Kind.binary (some v) size i
  try_from_array-to_array_of_size (ScalarValue.date32 v) size i =
      try_from_array-replicate Kind.date32 (some v) size i
