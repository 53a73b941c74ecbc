-- ===== src/Shuffle/RoundTrip.antt =====
-- Rows written by a shuffle and read again (fdapquery-physical-plan/src/shuffle_writer_exec.rs,
-- shuffle_reader_exec.rs).
use mathlib.Core.List.{Perm}
use fdapquery.Base.{
  ℕ, zero, suc, ◌+◌, ◌<◌, ◌≡◌, refl, ℤ, pos, List, [], ◌∷◌, map, length, All, arith, filter,
}
use fdapquery.External.{External}
use fdapquery.Arrow.{Kind, Arrow}
use fdapquery.Errors.{ok, traverse}
use fdapquery.Scalar.Arrays.{replicate}
use fdapquery.Rows.{Row}
use fdapquery.Rows.Read.{row_key}
use native.Mathlib.Nat.{mod-lt}
use fdapquery.Rows.RoundTrip.{Writes}
use fdapquery.RowKey.{Hashing, hash_row}
use fdapquery.ColumnarValue.{evaluate_column}
use fdapquery.Distributed.{ShuffleLocation}
use fdapquery.Join.{Stream}
use fdapquery.Join.Nested.{StreamRows}
use fdapquery.PhysicalPlanner.{as_usize}
use fdapquery.Shuffle.{ShuffleWriterExec, TaskContext, write_shuffle, execute}
use fdapquery.Shuffle.Manager.{Disk}
use fdapquery.Shuffle.Targets.{bucket}
use fdapquery.Shuffle.Parts.{parts, flatten, parts-Perm}
use fdapquery.Shuffle.Buffers.{Holds, Inputs, fill_buffers-parts}
use fdapquery.Shuffle.Written.{Accepts, write_buffers-Written, streams, streams-Holds}

All-every {ℓ κ} : {A : Type ℓ} {P : A → Type κ} (xs : List A) → ((x : A) → P x) → All P xs
All-every [] h = tt
All-every (x ∷ xs) h = (h x, All-every xs h)

module _ ⦃ext : External⦄ where
  as_usize-pos : {z : ℤ} (n : ℕ) → z ≡ pos n → as_usize z ≡ n
  unfolding as_usize
  as_usize-pos n h = rw h refl

  traverse-ok : {A : Type 0} (xs : List A) → traverse (λ item. item) (map ok xs) ≡ ok xs
  unfolding traverse
  traverse-ok [] = refl
  traverse-ok (x ∷ xs) = rw (traverse-ok xs) refl

module _ ⦃ext : External⦄ ⦃arrow : Arrow⦄ where
  Holds-empty : (g : Row → ℕ) (part count : ℕ) → Holds (replicate count []) (parts g part count [])
  unfolding replicate parts filter
  Holds-empty g part zero = Holds.nil
  Holds-empty g part (suc count) = Holds.cons StreamRows.nil (Holds-empty g (part + 1) count)

module _ ⦃ext : External⦄ ⦃arrow : Arrow⦄ ⦃hashing : Hashing⦄ where
  bucket-below : (n : ℕ) (keys : List ℕ) (r : Row) → bucket n keys r < suc n
  unfolding bucket
  bucket-below n keys r = mod-lt (hashing.finish (hash_row (row_key keys r))) (omega arith)

  -- A writer with some partitions, by columns of its input, which answers batches of the input's
  -- kinds with these rows.
  pub record Shuffles (writer : ShuffleWriterExec) (n : ℕ) (keys : List ℕ) (ks : List Kind)
      (batches : List arrow.RecordBatch) (rows : List Row) : Type 0 where
    pub counts : writer.partition_count ≡ pos (suc n)
    pub exprs : writer.partition_expr ≡ map evaluate_column keys
    pub in_range : All (λ k. k < length ks) keys
    pub runs : writer.input.execute 0 ≡ ok (map ok batches)
    pub inputs : Inputs ks batches rows
    pub writes : Writes writer.input.schema ks

module _ ⦃ext : External⦄ ⦃arrow : Arrow⦄ ⦃hashing : Hashing⦄ ⦃disk : Disk⦄ where
  -- On a disk that accepts every write, a shuffle by columns into one partition or more, of rows of
  -- the types of a schema that has some fields, all nullable, answers, and the executor that wrote it
  -- reads from its locations the rows of the input, partition after partition: those of each
  -- partition in order, and each row in that of its key's hash.
  pub execute-write_shuffle :
      (writer : ShuffleWriterExec) (ctx : TaskContext) (n : ℕ) (keys : List ℕ) (ks : List Kind)
      (batches : List arrow.RecordBatch) (rows : List Row) (schema : ext.Schema)
      (files : disk.Files)
      → Shuffles writer n keys ks batches rows
      → Accepts
      → (locations : List ShuffleLocation) × (files' : disk.Files) × (out : Stream) × (write_shuffle
            writer ctx files
          ≡ ok (locations, files'))
        × (execute (record { shuffle_schema = schema; shuffle_locations = locations }) 0 ctx files'
            ≡ ok out)
        × StreamRows out (flatten (parts (bucket n keys) 0 (suc n) rows))
        × Perm (flatten (parts (bucket n keys) 0 (suc n) rows)) rows
  unfolding write_shuffle execute
  execute-write_shuffle writer ctx n keys ks batches rows schema files s a =
      let (buffers, filled, holds) =
        fill_buffers-parts writer n keys ks s.writes s.counts s.exprs s.in_range batches rows []
          (replicate (suc n) []) s.inputs (Holds-empty (bucket n keys) 0 (suc n)) in
      let w = write_buffers-Written writer ctx 0 buffers files a in
      (
        w.locations,
        w.after,
        streams buffers,
        rw (s.runs, traverse-ok batches, as_usize-pos (suc n) s.counts, filled) w.done,
        rw w.here w.read,
        streams-Holds holds,
        parts-Perm (bucket n keys) (suc n) rows (All-every rows (bucket-below n keys)),
      )
