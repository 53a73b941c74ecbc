-- ===== src/Arrow.antt =====
-- What the program takes from the crate `arrow-array`: typed arrays, the builders that make them,
-- and record batches, with the documented behaviour of each. `Kind` names the array types that the
-- program supports, and `Native` the Rust type of a cell of each.
use fdapquery.Base.{
  ℕ, ℤ, String, Bool, true, false, ◌≡◌, ◌≢◌, Option, none, some, List, [], ◌⊎◌, inr, map, length,
  get_elem?, All,
}
use fdapquery.External.{External}

pub data Kind : Type 0 where
  boolean int8 int16 int32 int64 uint8 uint16 uint32 uint64 float32 float64 utf8 binary date32 :
      Kind

-- Whether a list holds no value at a position in range.
abbrev pub is_none_at {ℓ} : {A : Type ℓ} → List (Option A) → ℕ → Bool
is_none_at xs i = elim (get_elem? xs i) [
  | none ↦ false
  | some o ↦ elim o [ none ↦ true | some v ↦ false ]
]

module _ ⦃ext : External⦄ where
  abbrev pub Native : Kind → Type 0
  Native Kind.boolean = Bool
  Native Kind.int8 = ℤ
  Native Kind.int16 = ℤ
  Native Kind.int32 = ℤ
  Native Kind.int64 = ℤ
  Native Kind.uint8 = ℕ
  Native Kind.uint16 = ℕ
  Native Kind.uint32 = ℕ
  Native Kind.uint64 = ℕ
  Native Kind.float32 = ext.F32
  Native Kind.float64 = ext.F64
  Native Kind.utf8 = String
  Native Kind.binary = List ℕ
  Native Kind.date32 = ℤ

  -- The variant of arrow's `DataType` of this name.
  abbrev pub type_of : Kind → ext.DataType
  type_of Kind.boolean = ext.boolean
  type_of Kind.int8 = ext.int8
  type_of Kind.int16 = ext.int16
  type_of Kind.int32 = ext.int32
  type_of Kind.int64 = ext.int64
  type_of Kind.uint8 = ext.uint8
  type_of Kind.uint16 = ext.uint16
  type_of Kind.uint32 = ext.uint32
  type_of Kind.uint64 = ext.uint64
  type_of Kind.float32 = ext.float32
  type_of Kind.float64 = ext.float64
  type_of Kind.utf8 = ext.utf8
  type_of Kind.binary = ext.binary
  type_of Kind.date32 = ext.date32

  pub record Arrow : Type 1 where
    -- Which of the variants that the program matches on a data type is.
    pub kind_of : ext.DataType → Option Kind
    pub kind_of-type_of : (k : Kind) → kind_of (type_of k) ≡ some k
    pub ArrayRef : Type 0
    pub array_type : ArrayRef → ext.DataType
    pub array_len : ArrayRef → ℕ
    pub is_null_at : ArrayRef → ℕ → Bool
    -- `downcast_ref` to the array type of this kind, and `value(i)`.
    pub value : (k : Kind) → ArrayRef → ℕ → Native k
    -- The array that a builder finishes after `append_value` and `append_null` of these.
    pub finish : (k : Kind) → List (Option (Native k)) → ArrayRef
    pub array_type-finish :
        (k : Kind) (xs : List (Option (Native k))) → array_type (finish k xs) ≡ type_of k
    pub array_len-finish :
        (k : Kind) (xs : List (Option (Native k))) → array_len (finish k xs) ≡ length xs
    pub is_null_at-finish :
        (k : Kind) (xs : List (Option (Native k))) (i : ℕ)
        → is_null_at (finish k xs) i ≡ is_none_at xs i
    pub value-finish :
        (k : Kind) (xs : List (Option (Native k))) (i : ℕ) (v : Native k)
        → get_elem? xs i ≡ some (some v)
        → value k (finish k xs) i ≡ v
    pub RecordBatch : Type 0
    pub num_rows : RecordBatch → ℕ
    pub columns : RecordBatch → List ArrayRef
    pub is_nullable : ext.Field → Bool
    pub try_new : ext.Schema → List ArrayRef → ext.ArrowError ⊎ RecordBatch
    -- A batch is made of the columns that it was given, each with as many cells as it has rows.
    pub columns-try_new :
        (s : ext.Schema) (cs : List ArrayRef) (b : RecordBatch)
        → try_new s cs ≡ inr b
        → (columns b ≡ cs) × All (λ c. array_len c ≡ num_rows b) cs
    -- Columns of one length and of the fields' types are accepted, if there is one and every field
    -- is nullable.
    pub try_new-accepts :
        (s : ext.Schema) (cs : List ArrayRef) (n : ℕ)
        → cs ≢ []
        → map array_type cs ≡ map ext.data_type (ext.fields s)
        → All (λ c. array_len c ≡ n) cs
        → All (λ f. is_nullable f ≡ true) (ext.fields s)
        → (b : RecordBatch) × (try_new s cs ≡ inr b)
