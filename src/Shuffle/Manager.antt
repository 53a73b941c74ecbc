-- ===== src/Shuffle/Manager.antt =====
-- fdapquery-execution/src/shuffle_manager.rs: partitions as files of batches. A path is the list of
-- its components; a component that is formatted from a number is kept as the number.
use fdapquery.Base.{
  ℕ, ◌≡◌, ◌≢◌, String, concat, Bool, true, List, [], ◌∷◌, ◌++◌, map, ◌⊎◌, inl, inr, if◌then◌else◌,
}
use fdapquery.External.{External}
use fdapquery.Arrow.{Arrow}
use fdapquery.Errors.{Outcome, ok, err, ◌>>=◌, io_error, execution}
use fdapquery.Join.{Stream}

pub data Component : Type 0 where
  text : String → Component
  number partition_file : ℕ → Component

abbrev pub PathBuf : Type 0
PathBuf = List Component

pub record ShuffleManager : Type 0 where
  pub base_dir : String

-- Directory for one job and stage.
unfoldable pub partition_dir : ShuffleManager → (job_uuid : String) → (stage_id : ℕ) → PathBuf
partition_dir manager job_uuid stage_id =
    text manager.base_dir ∷ text job_uuid ∷ number stage_id ∷ []

unfoldable pub get_partition_file : ShuffleManager → String → ℕ → (partition_id : ℕ) → PathBuf
unfolding partition_dir
get_partition_file manager job_uuid stage_id partition_id =
    partition_dir manager job_uuid stage_id ++ partition_file partition_id ∷ []

module _ ⦃ext : External⦄ where
  -- `?` on an I/O result, by `From<io::Error>`.
  abbrev pub from_io : {A : Type 0} → ext.IoError ⊎ A → Outcome A
  from_io (inl e) = err (io_error e)
  from_io (inr a) = ok a

module _ ⦃ext : External⦄ ⦃arrow : Arrow⦄ where
  -- The file system, and the crate `arrow-ipc`: what a writer wrote to a file and finished, a reader
  -- of the file reads, and no other file changes.
  pub record Disk : Type 1 where
    pub Files : Type 0
    pub display : PathBuf → String
    pub exists : Files → PathBuf → Bool
    pub create_dir_all : PathBuf → Files → ext.IoError ⊎ Files
    pub batch_schema : arrow.RecordBatch → ext.Schema
    -- `File::create`, and a `FileWriter` on it with a schema that writes each batch and finishes.
    pub write_file : PathBuf → ext.Schema → List arrow.RecordBatch → Files → Outcome Files
    -- `File::open`, and what a `FileReader` on it yields.
    pub read_file : PathBuf → Files → Outcome Stream
    pub read-write :
        (p : PathBuf) (s : ext.Schema) (bs : List arrow.RecordBatch) (files files' : Files)
        → write_file p s bs files ≡ ok files'
        → (exists files' p ≡ true) × (read_file p files' ≡ ok (map ok bs))
    pub write-other :
        (p q : PathBuf) (s : ext.Schema) (bs : List arrow.RecordBatch) (files files' : Files)
        → write_file p s bs files ≡ ok files'
        → p ≢ q
        → (exists files' q ≡ exists files q) × (read_file q files' ≡ read_file q files)
    pub create_dir_all-files :
        (dir d : PathBuf) (n : ℕ) (files files' : Files)
        → create_dir_all dir files ≡ inr files'
        → (exists files' (d ++ partition_file n ∷ []) ≡ exists files (d ++ partition_file n ∷ []))
          × (read_file (d ++ partition_file n ∷ []) files'
              ≡ read_file (d ++ partition_file n ∷ []) files)

module _ ⦃ext : External⦄ ⦃arrow : Arrow⦄ ⦃disk : Disk⦄ where
  unfoldable pub write_partition :
      ShuffleManager → String → ℕ → ℕ → List arrow.RecordBatch → disk.Files → Outcome disk.Files
  unfolding partition_dir
  write_partition manager job_uuid stage_id partition_id [] files = ok files
  write_partition manager job_uuid stage_id partition_id (b ∷ bs) files =
      let dir = partition_dir manager job_uuid stage_id in
      from_io (disk.create_dir_all dir files) >>= λ files'.
      disk.write_file (dir ++ partition_file partition_id ∷ []) (disk.batch_schema b) (b ∷ bs)
        files'

  unfoldable pub read_partition : ShuffleManager → String → ℕ → ℕ → disk.Files → Outcome Stream
  unfolding get_partition_file
  read_partition manager job_uuid stage_id partition_id files =
      let file_path = get_partition_file manager job_uuid stage_id partition_id in
      if disk.exists files file_path
      then disk.read_file file_path files
      else err (execution (concat ("shuffle file not found: " ∷ disk.display file_path ∷ [])))
