-- ===== src/Shuffle/Written.antt =====
-- The files of the partitions, and what is read from them
-- (fdapquery-physical-plan/src/shuffle_writer_exec.rs, shuffle_reader_exec.rs).
use fdapquery.Base.{
  ℕ, ◌+◌, ◌<◌, ◌≡◌, ◌≢◌, refl, ◌∙◌, String, inr, List, [], ◌∷◌, ◌++◌, map, arith, eq_iff,
}
use fdapquery.External.{External}
use fdapquery.Arrow.{Arrow}
use fdapquery.Errors.{ok}
use fdapquery.Rows.{Row}
use fdapquery.Distributed.{ShuffleLocation}
use fdapquery.Join.{Stream}
use fdapquery.Join.Nested.{StreamRows}
use fdapquery.Shuffle.{
  ShuffleWriterExec, TaskContext, write_buffers, location_of, check_local, read_locations,
}
use fdapquery.Shuffle.Manager.{
  PathBuf, Disk, ShuffleManager, write_partition, read_partition, partition_dir, partition_file,
}
use fdapquery.Shuffle.Files.{PartitionId, read_partition-write_partition}
use fdapquery.Shuffle.Parts.{flatten}
use fdapquery.Shuffle.Buffers.{Holds, nil, cons, StreamRows-append}

module _ ⦃ext : External⦄ ⦃arrow : Arrow⦄ ⦃disk : Disk⦄ where
  -- A disk that refuses no directory and no file.
  pub record Accepts : Type 0 where
    pub makes :
        (dir : PathBuf) (files : disk.Files)
        → (files' : disk.Files) × (disk.create_dir_all dir files ≡ inr files')
    pub writes :
        (p : PathBuf) (s : ext.Schema) (bs : List arrow.RecordBatch) (files : disk.Files)
        → (files' : disk.Files) × (disk.write_file p s bs files ≡ ok files')

  write_partition-Accepts :
      (m : ShuffleManager) (j : String) (s p : ℕ) (bs : List arrow.RecordBatch) (files : disk.Files)
      → Accepts
      → (files' : disk.Files) × (write_partition m j s p bs files ≡ ok files')
  unfolding write_partition
  write_partition-Accepts m j s p [] files a = (files, refl)
  write_partition-Accepts m j s p (b ∷ bs) files a =
      let (mid, made) = a.makes (partition_dir m j s) files in
      let (files', wrote) =
        a.writes (partition_dir m j s ++ partition_file p ∷ []) (disk.batch_schema b) (b ∷ bs)
          mid in
      (files', rw made wrote)

  -- The streams of the buffers, one after another.
  unfoldable pub streams : List (List arrow.RecordBatch) → Stream
  streams [] = []
  streams (buffer ∷ buffers) = map ok buffer ++ streams buffers

  pub streams-Holds :
      {buffers : List (List arrow.RecordBatch)} {rows : List (List Row)}
      → Holds buffers rows
      → StreamRows (streams buffers) (flatten rows)
  unfolding streams flatten
  streams-Holds nil = StreamRows.nil
  streams-Holds (cons h hs) = StreamRows-append h (streams-Holds hs)

  other_partition : (j : String) (s p q : ℕ) → q < p → ◌≢◌ {A = PartitionId} (j, (s, p)) (j, (s, q))
  other_partition j s p q lt e = let same : p ≡ q = cc in omega (arith, lt, same)

  module _ (writer : ShuffleWriterExec) (ctx : TaskContext) where
    -- What is written from a partition on, and read again.
    pub record Written (part : ℕ) (buffers : List (List arrow.RecordBatch)) (files : disk.Files)
        : Type 0 where
      pub locations : List ShuffleLocation
      pub after : disk.Files
      pub done : write_buffers writer ctx part buffers files ≡ ok (locations, after)
      pub here : check_local ctx locations ≡ ok tt
      pub read : read_locations ctx locations after ≡ ok (streams buffers)
      pub below :
          (q : ℕ)
          → q < part
          → read_partition ctx.shuffle_manager writer.job_uuid writer.stage_id q after
            ≡ read_partition ctx.shuffle_manager writer.job_uuid writer.stage_id q files

    pub write_buffers-Written :
        (part : ℕ) (buffers : List (List arrow.RecordBatch)) (files : disk.Files)
        → Accepts
        → Written part buffers files
    unfolding write_buffers check_local read_locations streams
    write_buffers-Written part [] files a = record {
      locations = [];
      after = files;
      done = refl;
      here = refl;
      read = refl;
      below = λ q lt. refl;
    }
    write_buffers-Written part ([] ∷ buffers) files a =
        let w = write_buffers-Written (part + 1) buffers files a in
        record {
          locations = w.locations;
          after = w.after;
          done = w.done;
          here = w.here;
          read = w.read;
          below = λ q lt. w.below q (omega arith);
        }
    write_buffers-Written part ((b ∷ bs) ∷ buffers) files a =
        let m = ctx.shuffle_manager in
        let (mid, wrote) =
          write_partition-Accepts m writer.job_uuid writer.stage_id part (b ∷ bs) files a in
        let (reads, others) =
          read_partition-write_partition m writer.job_uuid writer.stage_id part b bs files mid
            wrote in
        let w = write_buffers-Written (part + 1) buffers mid a in
        record {
          locations = location_of writer ctx part ∷ w.locations;
          after = w.after;
          done = rw (wrote, w.done) refl;
          here = rw ((eq_iff ctx.executor_id ctx.executor_id).1 refl) w.here;
          read = rw (w.below part (omega arith) ∙ reads, w.read) refl;
          below = λ q lt.
              w.below q (omega arith)
              ∙ others writer.job_uuid writer.stage_id q
                  (other_partition writer.job_uuid writer.stage_id part q lt);
        }
