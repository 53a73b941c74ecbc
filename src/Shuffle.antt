-- ===== src/Shuffle.antt =====
-- fdapquery-physical-plan/src/shuffle_writer_exec.rs and shuffle_reader_exec.rs: rows divided over
-- partitions by the hashes of their keys, and read again. An expression is its `evaluate`. Stage and
-- partition numbers are natural numbers, which `as i32` keeps below 2^31.
pub mod Manager
pub mod Files
pub mod Targets
pub mod Select
pub mod Pick
pub mod Parts
pub mod Buffers
pub mod Written
pub mod RoundTrip
use fdapquery.Base.{
  ℕ, zero, suc, ◌+◌, ◌%◌, ℤ, pos, String, concat, decimal, Bool, true, false, not, Option, none,
  some, List, [], ◌∷◌, ◌++◌, map, length, is_empty, ◌==◌, text_eq, if◌then◌else◌,
}
use fdapquery.External.{External}
use fdapquery.Arrow.{Arrow}
use fdapquery.Errors.{Outcome, ok, err, panic, ◌>>=◌, traverse, internal, not_implemented}
use fdapquery.Scalar.Arrays.{try_from_array, replicate}
use fdapquery.Scalar.Builder.{ArrowVectorBuilder, new_builder, append_value, build}
use fdapquery.Rows.{Row, columns_of, create, for_rows}
use fdapquery.RowKey.{Hashing, hash_row}
use fdapquery.ColumnarValue.{ColumnarValue, into_array}
use fdapquery.Distributed.{ShuffleLocation}
use fdapquery.Join.{Stream, ExecutionPlan}
use fdapquery.PhysicalPlanner.{as_usize}
use fdapquery.Shuffle.Manager.{ShuffleManager, Disk, write_partition, read_partition}

-- Whether a list has a true element.
unfoldable pub any_true : List Bool → Bool
any_true [] = false
any_true (t ∷ ts) = if t then true else any_true ts

module _ ⦃ext : External⦄ ⦃arrow : Arrow⦄ where
  pub record ShuffleWriterExec : Type 0 where
    pub input : ExecutionPlan
    pub partition_expr : List (arrow.RecordBatch → Outcome ColumnarValue)
    pub job_uuid : String
    pub stage_id : ℕ
    pub partition_count : ℤ

  pub record ShuffleReaderExec : Type 0 where
    pub shuffle_schema : ext.Schema
    pub shuffle_locations : List ShuffleLocation

  -- The identity of the executor, and its shuffle manager.
  pub record TaskContext : Type 0 where
    pub executor_id : String
    pub executor_host : String
    pub executor_port : ℕ
    pub shuffle_manager : ShuffleManager

  -- The rows of a column that are taken, from a row on.
  unfoldable pub select_cells :
      arrow.ArrayRef → (row : ℕ) → List Bool → ArrowVectorBuilder → Outcome ArrowVectorBuilder
  select_cells source row [] builder = ok builder
  select_cells source row (false ∷ take) builder = select_cells source (row + 1) take builder
  select_cells source row (true ∷ take) builder = do
    value ← try_from_array source row
    builder' ← append_value builder value
    select_cells source (row + 1) take builder'

  unfoldable pub select_column : List Bool → arrow.ArrayRef → Outcome arrow.ArrayRef
  unfolding select_cells
  select_column take source = do
    builder ← new_builder (arrow.array_type source)
    builder' ← select_cells source 0 take builder
    ok (build builder')

  unfoldable pub select_rows :
      arrow.RecordBatch → ext.Schema → List Bool → Outcome arrow.RecordBatch
  unfolding select_column
  select_rows batch schema take = do
    columns ← traverse (select_column take) (columns_of batch)
    create schema columns

  unfoldable pub key_columns :
      List (arrow.RecordBatch → Outcome ColumnarValue)
      → arrow.RecordBatch
      → Outcome (List arrow.ArrayRef)
  key_columns exprs batch =
      traverse (λ e. e batch >>= λ v. ok (into_array v (arrow.num_rows batch))) exprs

  -- `buffer.push(select_rows(...)?)` for each partition that takes some row, from a partition on.
  unfoldable pub push_selected :
      arrow.RecordBatch
      → ext.Schema
      → (targets : List ℕ) → (partition_id : ℕ) → List (List arrow.RecordBatch)
      → Outcome (List (List arrow.RecordBatch))
  unfolding any_true select_rows
  push_selected batch schema targets partition_id [] = ok []
  push_selected batch schema targets partition_id (buffer ∷ buffers) =
      let take = map (λ t. t == partition_id) targets in
      let pushed =
        if any_true take
        then (select_rows batch schema take >>= λ selected. ok (buffer ++ selected ∷ []))
        else ok buffer in
      pushed >>= λ buffer'.
      push_selected batch schema targets (partition_id + 1) buffers >>= λ buffers'.
      ok (buffer' ∷ buffers')

module _ ⦃ext : External⦄ ⦃arrow : Arrow⦄ ⦃hashing : Hashing⦄ where
  -- `hasher.finish() % partition_count`.
  unfoldable pub target_of : (partition_count : ℕ) → Row → Outcome ℕ
  target_of zero key = panic "attempt to calculate the remainder with a divisor of zero"
  target_of (suc n) key = ok (hashing.finish (hash_row key) % suc n)

  unfoldable pub compute_targets :
      List arrow.ArrayRef → (row_count partition_count : ℕ) → Outcome (List ℕ)
  unfolding target_of
  compute_targets key_columns row_count partition_count =
      for_rows
        (λ row targets. traverse (λ c. try_from_array c row) key_columns >>= λ key.
          target_of partition_count key >>= λ t. ok (targets ++ t ∷ []))
        0 row_count []

  -- The batches of the input are divided over the buffers.
  unfoldable pub fill_buffers :
      ShuffleWriterExec
      → List arrow.RecordBatch
      → List (List arrow.RecordBatch)
      → Outcome (List (List arrow.RecordBatch))
  unfolding key_columns compute_targets push_selected
  fill_buffers writer [] buffers = ok buffers
  fill_buffers writer (batch ∷ batches) buffers = do
    keys ← key_columns writer.partition_expr batch
    targets ← compute_targets keys (arrow.num_rows batch) (as_usize writer.partition_count)
    buffers' ← push_selected batch writer.input.schema targets 0 buffers
    fill_buffers writer batches buffers'

module _ ⦃ext : External⦄ ⦃arrow : Arrow⦄ ⦃disk : Disk⦄ where
  pub location_of : ShuffleWriterExec → TaskContext → (partition_id : ℕ) → ShuffleLocation
  location_of writer ctx partition_id = record {
    job_uuid = writer.job_uuid;
    stage_id = writer.stage_id;
    partition_id = partition_id;
    executor_id = ctx.executor_id;
    executor_host = ctx.executor_host;
    executor_port = pos ctx.executor_port;
  }

  -- The buffers that are not empty are written, from a partition on.
  unfoldable pub write_buffers :
      ShuffleWriterExec
      → TaskContext
      → (partition_id : ℕ) → List (List arrow.RecordBatch)
      → disk.Files
      → Outcome (List ShuffleLocation × disk.Files)
  unfolding location_of
  write_buffers writer ctx partition_id [] files = ok ([], files)
  write_buffers writer ctx partition_id ([] ∷ buffers) files =
      write_buffers writer ctx (partition_id + 1) buffers files
  write_buffers writer ctx partition_id ((b ∷ bs) ∷ buffers) files = do
    files' ←
        write_partition ctx.shuffle_manager writer.job_uuid writer.stage_id partition_id (b ∷ bs)
          files
    rest ← write_buffers writer ctx (partition_id + 1) buffers files'
    ok (location_of writer ctx partition_id ∷ rest.0, rest.1)

module _ ⦃ext : External⦄ ⦃arrow : Arrow⦄ ⦃hashing : Hashing⦄ ⦃disk : Disk⦄ where
  -- `ShuffleWriterExec::write_shuffle`; `try_collect` is the traversal of the input's stream.
  unfoldable pub write_shuffle :
      ShuffleWriterExec → TaskContext → disk.Files → Outcome (List ShuffleLocation × disk.Files)
  unfolding fill_buffers write_buffers
  write_shuffle writer ctx files = do
    input_stream ← writer.input.execute 0
    batches ← traverse (λ item. item) input_stream
    buffers ← fill_buffers writer batches (replicate (as_usize writer.partition_count) [])
    write_buffers writer ctx 0 buffers files

module _ ⦃ext : External⦄ ⦃arrow : Arrow⦄ ⦃disk : Disk⦄ where
  -- The locations are this executor's.
  unfoldable pub check_local : TaskContext → List ShuffleLocation → Outcome Unit
  check_local ctx [] = ok tt
  check_local ctx (loc ∷ locs) =
      if text_eq loc.executor_id ctx.executor_id
      then check_local ctx locs
      else err (
          not_implemented (
            concat (
              "ShuffleReaderExec: remote shuffle reads require an Arrow Flight client. Location belongs to executor '"
              ∷ loc.executor_id ∷ "' but this executor is '" ∷ ctx.executor_id
              ∷ "'. Remote reads need a Flight client field on RuntimeEnv." ∷ [])))

  -- The streams of the locations, one after another.
  unfoldable pub read_locations : TaskContext → List ShuffleLocation → disk.Files → Outcome Stream
  read_locations ctx [] files = ok []
  read_locations ctx (loc ∷ locs) files = do
    batches ← read_partition ctx.shuffle_manager loc.job_uuid loc.stage_id loc.partition_id files
    rest ← read_locations ctx locs files
    ok (batches ++ rest)

  -- `ShuffleReaderExec::execute`.
  unfoldable pub execute :
      ShuffleReaderExec → (partition : ℕ) → TaskContext → disk.Files → Outcome Stream
  unfolding check_local read_locations
  execute reader partition ctx files =
      if not (partition == 0)
      then err (
          internal (
            concat (
              "ShuffleReaderExec has 1 output partition; partition "
              ∷ decimal partition
              ∷ " is out of range"
              ∷ [])))
      else check_local ctx reader.shuffle_locations >>= λ checked.
          read_locations ctx reader.shuffle_locations files
