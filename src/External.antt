-- ===== src/External.antt =====
-- What the program takes from the crates `arrow-schema`, `parquet` and `chrono`, and from Rust's
-- floating-point and `Debug` formatting: types and operations with no definition here, and the
-- documented behaviour of those that the theorems rest on.
use fdapquery.Base.{ℕ, String, ◌≡◌, Bool, Option, none, some, List, [], ◌∷◌, ◌⊎◌, inr, get_elem?, ℤ}

-- The elements at the given positions, if all of these are in range.
unfoldable pub pick {ℓ} : {A : Type ℓ} → List ℕ → List A → Option (List A)
pick [] xs = some []
pick (i ∷ is) xs = elim (get_elem? xs i) [
  | none ↦ none
  | some x ↦ elim (pick is xs) [ none ↦ none | some ys ↦ some (x ∷ ys) ]
]

pub record External : Type 1 where
  pub DataType : Type 0
  pub null : DataType
  pub boolean : DataType
  pub int8 : DataType
  pub int16 : DataType
  pub int32 : DataType
  pub int64 : DataType
  pub uint8 : DataType
  pub uint16 : DataType
  pub uint32 : DataType
  pub uint64 : DataType
  pub float32 : DataType
  pub float64 : DataType
  pub utf8 : DataType
  pub binary : DataType
  pub date32 : DataType
  pub debug_data_type : DataType → String
  pub display_data_type : DataType → String
  pub Field : Type 0
  pub new_field : String → DataType → Bool → Field
  pub name : Field → String
  pub data_type : Field → DataType
  pub Schema : Type 0
  pub new_schema : List Field → Schema
  pub fields : Schema → List Field
  pub ArrowError : Type 0
  pub project : Schema → List ℕ → ArrowError ⊎ Schema
  pub ParquetError : Type 0
  pub IoError : Type 0
  pub OtherError : Type 0
  pub F32 : Type 0
  pub F64 : Type 0
  pub display_f32 : F32 → String
  pub display_f64 : F64 → String
  -- The date that lies so many days after 1970-01-01, if chrono can represent it.
  pub display_date : ℤ → Option String
  -- `{:?}` of a list of texts.
  pub debug_texts : List String → String
  -- A field has the name and the type that it was made with.
  pub name-new_field : (n : String) (t : DataType) (b : Bool) → name (new_field n t b) ≡ n
  pub data_type-new_field : (n : String) (t : DataType) (b : Bool) → data_type (new_field n t b) ≡ t
  -- A schema has the fields that it was made from.
  pub fields-new_schema : (fs : List Field) → fields (new_schema fs) ≡ fs
  -- `Schema::project` succeeds on positions in range, and returns the fields there, in that order.
  pub fields-project :
      (s : Schema) (is : List ℕ) (fs : List Field)
      → pick is (fields s) ≡ some fs
      → (t : Schema) × (project s is ≡ inr t) × (fields t ≡ fs)
