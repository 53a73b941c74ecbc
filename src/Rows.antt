-- ===== src/Rows.antt =====
-- The rows of record batches, as fdapquery-physical-plan/src/hash_join_exec.rs reads and writes
-- them (`columns_of`, `full_row`, `key_of`, `create_batch`), and `record_batch::create` of
-- fdapquery-datatypes/src/record_batch.rs.
pub mod Read
pub mod Write
pub mod RoundTrip
use fdapquery.Base.{ℕ, zero, suc, ◌+◌, Option, none, some, List, [], ◌∷◌, ◌++◌, map, get_elem?}
use fdapquery.External.{External}
use fdapquery.Arrow.{Arrow}
use fdapquery.Errors.{Outcome, ok, panic, ◌>>=◌, from_arrow, traverse}
use fdapquery.Scalar.{ScalarValue}
use fdapquery.Scalar.Arrays.{try_from_array}
use fdapquery.Scalar.Builder.{ArrowVectorBuilder, new_builder, append_value, build}

module _ ⦃ext : External⦄ where
  abbrev pub Row : Type 0
  Row = List ScalarValue

  -- `builders[col].append_value(value)` for each value of a row, from the first builder on.
  unfoldable pub append_row : List ArrowVectorBuilder → Row → Outcome (List ArrowVectorBuilder)
  append_row bs [] = ok bs
  append_row [] (v ∷ vs) = panic "index out of bounds"
  append_row (b ∷ bs) (v ∷ vs) = do b' ← append_value b v; bs' ← append_row bs vs; ok (b' ∷ bs')

  unfoldable pub append_rows :
      List ArrowVectorBuilder → List Row → Outcome (List ArrowVectorBuilder)
  append_rows bs [] = ok bs
  append_rows bs (row ∷ rows) = do bs' ← append_row bs row; append_rows bs' rows

module _ ⦃ext : External⦄ ⦃arrow : Arrow⦄ where
  -- `record_batch::create`.
  unfoldable pub create : ext.Schema → List arrow.ArrayRef → Outcome arrow.RecordBatch
  create schema columns = from_arrow (arrow.try_new schema columns)

  unfoldable pub create_batch : List Row → ext.Schema → Outcome arrow.RecordBatch
  create_batch rows schema = do
    new ← traverse (λ f. new_builder (ext.data_type f)) (ext.fields schema)
    builders ← append_rows new rows
    create schema (map build builders)

  -- `columns_of` clones each of a batch's columns.
  abbrev pub columns_of : arrow.RecordBatch → List arrow.ArrayRef
  columns_of batch = arrow.columns batch

  unfoldable pub full_row : List arrow.ArrayRef → ℕ → Outcome Row
  full_row cols row = traverse (λ c. try_from_array c row) cols

  -- `&cols[k]`.
  pub column_at : List arrow.ArrayRef → ℕ → Outcome arrow.ArrayRef
  column_at cols k = elim (get_elem? cols k) [ none ↦ panic "index out of bounds" | some c ↦ ok c ]

  unfoldable pub key_of : List arrow.ArrayRef → List ℕ → ℕ → Outcome Row
  unfolding column_at
  key_of cols keys row = traverse (λ k. column_at cols k >>= λ c. try_from_array c row) keys

  -- A batch's rows, for the statements.
  unfoldable pub rows_from : arrow.RecordBatch → (row count : ℕ) → Outcome (List Row)
  rows_from batch row zero = ok []
  rows_from batch row (suc count) = do
    r ← full_row (columns_of batch) row
    rs ← rows_from batch (row + 1) count
    ok (r ∷ rs)

  unfoldable pub read_rows : arrow.RecordBatch → Outcome (List Row)
  unfolding rows_from
  read_rows batch = rows_from batch 0 (arrow.num_rows batch)

-- `for row in row..row + count`, over a state that the body changes.
module _ ⦃ext : External⦄ {S : Type 0} where
  unfoldable pub for_rows : (ℕ → S → Outcome S) → (row count : ℕ) → S → Outcome S
  for_rows body row zero s = ok s
  for_rows body row (suc count) s = do s' ← body row s; for_rows body (row + 1) count s'
