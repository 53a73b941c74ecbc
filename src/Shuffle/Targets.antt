-- ===== src/Shuffle/Targets.antt =====
-- The partitions that rows are sent to (fdapquery-physical-plan/src/shuffle_writer_exec.rs).
use fdapquery.Base.{
  ℕ, zero, suc, ◌%◌, ◌<◌, ◌≡◌, refl, sym, ap, ◌∙◌, some, List, [], ◌∷◌, ◌++◌, map, length,
  get_elem?, All, arith,
}
use mathlib.Core.List.{append_assoc, append-nil}
use fdapquery.External.{External}
use fdapquery.Arrow.{Arrow}
use fdapquery.Errors.{ok, ◌>>=◌, traverse}
use fdapquery.Scalar.Arrays.{try_from_array}
use fdapquery.Rows.{Row, column_at, key_of, columns_of, read_rows}
use fdapquery.Rows.Read.{foldl, row_key, HasKey, for_batch-foldl}
use fdapquery.RowKey.{Hashing, hash_row}
use fdapquery.ColumnarValue.{into_array, evaluate_column}
use fdapquery.Shuffle.{key_columns, target_of, compute_targets}

get_elem?-in_range {ℓ} :
    {A : Type ℓ} (xs : List A) (i : ℕ) → i < length xs → (x : A) × (get_elem? xs i ≡ some x)
get_elem?-in_range [] i h = absurd (omega arith)
get_elem?-in_range (x ∷ xs) zero h = (x, refl)
get_elem?-in_range (x ∷ xs) (suc i) h = get_elem?-in_range xs i (omega arith)

foldl-snoc {ℓ κ} :
    {A : Type ℓ} {B : Type κ} (f : A → B) (out : List B) (xs : List A)
    → foldl (λ out x. out ++ f x ∷ []) out xs ≡ out ++ map f xs
unfolding foldl
foldl-snoc f out [] = sym (append-nil out)
foldl-snoc f out (x ∷ xs) =
    foldl-snoc f (out ++ f x ∷ []) xs ∙ append_assoc out (f x ∷ []) (map f xs)

module _ ⦃ext : External⦄ ⦃hashing : Hashing⦄ where
  -- The partition of a row, by the columns of its key, of one more partition than `n`.
  unfoldable pub bucket : (n : ℕ) → List ℕ → Row → ℕ
  bucket n keys r = hashing.finish (hash_row (row_key keys r)) % suc n

module _ ⦃ext : External⦄ ⦃arrow : Arrow⦄ ⦃hashing : Hashing⦄ where
  -- Columns as partition expressions are evaluated to those columns.
  pub key_columns-columns :
      (keys : List ℕ) (batch : arrow.RecordBatch)
      → All (λ k. k < length (columns_of batch)) keys
      → (cs : List arrow.ArrayRef) × (key_columns (map evaluate_column keys) batch ≡ ok cs)
        × ((row : ℕ) → traverse (λ c. try_from_array c row) cs ≡ key_of (columns_of batch) keys row)
  unfolding key_columns key_of traverse evaluate_column into_array
  key_columns-columns [] batch h = ([], refl, λ row. refl)
  key_columns-columns (k ∷ keys) batch (lt, h) =
      let (c, at) = get_elem?-in_range (columns_of batch) k lt in
      let (cs, e, same) = key_columns-columns keys batch h in
      (c ∷ cs, rw (evaluate_column, at, e) refl, λ row. rw (column_at, at, same row) refl)

  -- The targets of a batch are the partitions of its rows.
  pub compute_targets-bucket :
      (n : ℕ) (keys : List ℕ) (batch : arrow.RecordBatch) (rows : List Row)
      → All (λ k. k < length (columns_of batch)) keys
      → read_rows batch ≡ ok rows
      → All (HasKey keys) rows
      → (key_columns (map evaluate_column keys) batch >>= λ cs.
          compute_targets cs (arrow.num_rows batch) (suc n))
        ≡ ok (map (bucket n keys) rows)
  unfolding compute_targets bucket target_of
  compute_targets-bucket n keys batch rows inside read have =
      let (cs, e, same) = key_columns-columns keys batch inside in
      rw e (
        for_batch-foldl keys batch (λ out r. out ++ bucket n keys r ∷ [])
          (λ row targets. traverse (λ c. try_from_array c row) cs >>= λ key.
            target_of (suc n) key >>= λ t. ok (targets ++ t ∷ []))
          rows [] (λ row s r full key. rw (same row, key) refl) read have
        ∙ ap ok (foldl-snoc (bucket n keys) [] rows))
