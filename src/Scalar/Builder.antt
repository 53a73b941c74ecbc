-- ===== src/Scalar/Builder.antt =====
-- fdapquery-common/src/arrow_vector_builder.rs: a column built one scalar at a time.
use fdapquery.Base.{◌≡◌, refl, Option, none, some, List, [], ◌∷◌, ◌++◌, if◌then◌else◌, concat}
use fdapquery.External.{External}
use fdapquery.Arrow.{Kind, Native, type_of, Arrow}
use fdapquery.Errors.{Outcome, ok, panic}
use fdapquery.Scalar.{ScalarValue, is_null}
use fdapquery.Scalar.Arrays.{scalar_of, cell_of, is_null-scalar_of}

module _ ⦃ext : External⦄ where
  -- The variant of the enum, and what was appended to arrow's builder in it.
  pub record ArrowVectorBuilder : Type 0 where
    pub kind : Kind
    pub values : List (Option (Native kind))

  -- The value of a scalar of this variant.
  unfoldable pub native_of : (k : Kind) → ScalarValue → Option (Native k)
  native_of Kind.boolean (ScalarValue.boolean v) = some v
  native_of Kind.int8 (ScalarValue.int8 v) = some v
  native_of Kind.int16 (ScalarValue.int16 v) = some v
  native_of Kind.int32 (ScalarValue.int32 v) = some v
  native_of Kind.int64 (ScalarValue.int64 v) = some v
  native_of Kind.uint8 (ScalarValue.uint8 v) = some v
  native_of Kind.uint16 (ScalarValue.uint16 v) = some v
  native_of Kind.uint32 (ScalarValue.uint32 v) = some v
  native_of Kind.uint64 (ScalarValue.uint64 v) = some v
  native_of Kind.float32 (ScalarValue.float32 v) = some v
  native_of Kind.float64 (ScalarValue.float64 v) = some v
  native_of Kind.utf8 (ScalarValue.utf8 v) = some v
  native_of Kind.binary (ScalarValue.binary v) = some v
  native_of Kind.date32 (ScalarValue.date32 v) = some v
  native_of _ _ = none

  pub native_of-scalar_of : (k : Kind) (v : Native k) → native_of k (scalar_of k v) ≡ some v
  unfolding native_of scalar_of
  native_of-scalar_of Kind.boolean v = refl
  native_of-scalar_of Kind.int8 v = refl
  native_of-scalar_of Kind.int16 v = refl
  native_of-scalar_of Kind.int32 v = refl
  native_of-scalar_of Kind.int64 v = refl
  native_of-scalar_of Kind.uint8 v = refl
  native_of-scalar_of Kind.uint16 v = refl
  native_of-scalar_of Kind.uint32 v = refl
  native_of-scalar_of Kind.uint64 v = refl
  native_of-scalar_of Kind.float32 v = refl
  native_of-scalar_of Kind.float64 v = refl
  native_of-scalar_of Kind.utf8 v = refl
  native_of-scalar_of Kind.binary v = refl
  native_of-scalar_of Kind.date32 v = refl

  -- A value appended to the builder's column.
  abbrev pub push : (b : ArrowVectorBuilder) → Option (Native b.kind) → ArrowVectorBuilder
  push b o = record { kind = b.kind; values = b.values ++ o ∷ [] }

  unfoldable pub append_null : ArrowVectorBuilder → ArrowVectorBuilder
  append_null b = push b none

  -- A scalar of another variant than the builder's panics.
  unfoldable pub append_value : ArrowVectorBuilder → ScalarValue → Outcome ArrowVectorBuilder
  unfolding append_null native_of
  append_value b v = if is_null v then ok (append_null b) else elim (native_of b.kind v) [
    | some n ↦ ok (push b (some n))
    | none ↦ panic "ArrowVectorBuilder::append_value: cannot append"
  ]

  unfoldable pub builder_type : ArrowVectorBuilder → ext.DataType
  builder_type b = type_of b.kind

  -- A null, or a value of the builder's variant, is appended to its column.
  pub append_value-cell_of :
      (b : ArrowVectorBuilder) (o : Option (Native b.kind))
      → append_value b (cell_of b.kind o) ≡ ok (push b o)
  unfolding append_value cell_of is_null
  append_value-cell_of b none = refl
  append_value-cell_of b (some v) =
      rw (is_null-scalar_of b.kind v, native_of-scalar_of b.kind v) refl

module _ ⦃ext : External⦄ ⦃arrow : Arrow⦄ where
  -- `ArrowVectorBuilder::new`.
  unfoldable pub new_builder : ext.DataType → Outcome ArrowVectorBuilder
  new_builder t = elim (arrow.kind_of t) [
    | some k ↦ ok (record { kind = k; values = [] })
    | none ↦
        panic
          (concat ("ArrowVectorBuilder::new: unsupported data type: " ∷ ext.debug_data_type t ∷ []))
  ]

  -- `ArrowVectorBuilder::build`.
  unfoldable pub build : ArrowVectorBuilder → arrow.ArrayRef
  build b = arrow.finish b.kind b.values
