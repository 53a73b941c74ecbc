-- ===== src/ColumnarValue.antt =====
-- fdapquery-physical-expr/src/columnar_value.rs: the value of an expression over a batch, a column
-- or one scalar for every row; and `evaluate` of columns and literals (column_expression.rs,
-- expressions.rs).
pub mod Lengths
use fdapquery.Base.{
  ℕ, ◌==◌, Option, none, some, List, [], ◌∷◌, concat, decimal, get_elem?, if◌then◌else◌, is_empty,
}
use fdapquery.External.{External}
use fdapquery.Arrow.{Arrow}
use fdapquery.Errors.{Outcome, ok, err, panic, ◌>>=◌, traverse, internal}
use fdapquery.Scalar
use fdapquery.Scalar.{ScalarValue}
use fdapquery.Scalar.Arrays.{to_array_of_size}

module _ ⦃ext : External⦄ ⦃arrow : Arrow⦄ where
  pub data ColumnarValue : Type 0 where
    array : arrow.ArrayRef → ColumnarValue
    scalar : ScalarValue → ColumnarValue

  unfoldable pub value_type : ColumnarValue → ext.DataType
  value_type (array a) = arrow.array_type a
  value_type (scalar s) = Scalar.data_type s

  -- `into_array` and `to_array`, which differ in what they do with the reference.
  unfoldable pub into_array : ColumnarValue → (num_rows : ℕ) → arrow.ArrayRef
  into_array (array a) num_rows = a
  into_array (scalar s) num_rows = to_array_of_size s num_rows

  -- `into_array_of_size` and `to_array_of_size`.
  unfoldable pub into_array_of_size : ColumnarValue → (num_rows : ℕ) → Outcome arrow.ArrayRef
  into_array_of_size (array a) num_rows =
      if arrow.array_len a == num_rows
      then ok a
      else err (
          internal (
            concat (
              "Array length "
              ∷ decimal (arrow.array_len a)
              ∷ " does not match expected length "
              ∷ decimal num_rows
              ∷ [])))
  into_array_of_size (scalar s) num_rows = ok (to_array_of_size s num_rows)

  -- The length after one more array.
  unfoldable pub agreed : arrow.ArrayRef → Option ℕ → Outcome (Option ℕ)
  agreed a none = ok (some (arrow.array_len a))
  agreed a (some expected) =
      if expected == arrow.array_len a
      then ok (some expected)
      else err (
          internal (
            concat (
              "Arguments has mixed length. Expected length: "
              ∷ decimal expected
              ∷ ", found length: "
              ∷ decimal (arrow.array_len a)
              ∷ [])))

  -- The loop over the arguments of `values_to_arrays`.
  unfoldable pub array_len_of : List ColumnarValue → Option ℕ → Outcome (Option ℕ)
  unfolding agreed
  array_len_of [] len = ok len
  array_len_of (array a ∷ args) len = do len' ← agreed a len; array_len_of args len'
  array_len_of (scalar s ∷ args) len = array_len_of args len

  unfoldable pub or_one : Option ℕ → ℕ
  or_one none = 1
  or_one (some n) = n

  unfoldable pub values_to_arrays : List ColumnarValue → Outcome (List arrow.ArrayRef)
  unfolding array_len_of or_one
  values_to_arrays args =
      if is_empty args
      then ok []
      else array_len_of args none >>= λ len. traverse (λ a. ok (into_array a (or_one len))) args

  -- `Column::evaluate`.
  unfoldable pub evaluate_column : (index : ℕ) → arrow.RecordBatch → Outcome ColumnarValue
  evaluate_column index batch = elim (get_elem? (arrow.columns batch) index) [
    | none ↦ panic "index out of bounds"
    | some c ↦ ok (array c)
  ]

  -- `Literal::evaluate`.
  unfoldable pub evaluate_literal : ScalarValue → arrow.RecordBatch → Outcome ColumnarValue
  evaluate_literal s batch = ok (scalar s)
