-- ===== src/Shuffle/Files.antt =====
-- What is read after a write (fdapquery-execution/src/shuffle_manager.rs).
use fdapquery.Base.{ℕ, ◌≡◌, ◌≢◌, refl, String, List, [], ◌∷◌, ◌++◌, map, ◌⊎◌, inl, inr}
use fdapquery.External.{External}
use fdapquery.Arrow.{Arrow}
use fdapquery.Errors.{ok, bind-eq-ok}
use fdapquery.Shuffle.Manager.{
  ShuffleManager, Disk, get_partition_file, partition_dir, write_partition, read_partition,
  partition_file, from_io,
}

-- A partition, by its job, its stage and its number.
abbrev pub PartitionId : Type 0
PartitionId = String × (ℕ × ℕ)

get_partition_file-injective :
    (m : ShuffleManager) (j j' : String) (s s' p p' : ℕ)
    → get_partition_file m j s p ≡ get_partition_file m j' s' p'
    → ◌≡◌ {A = PartitionId} (j, (s, p)) (j', (s', p'))
unfolding get_partition_file partition_dir
get_partition_file-injective m j j' s s' p p' h = cc

module _ ⦃ext : External⦄ ⦃arrow : Arrow⦄ ⦃disk : Disk⦄ where
  from_io-ok : {A : Type 0} (r : ext.IoError ⊎ A) {a : A} → from_io r ≡ ok a → r ≡ inr a
  from_io-ok (inl e) h = cc
  from_io-ok (inr a) h = cc

  -- What was written to a partition is read from it, and every other partition reads as before.
  pub read_partition-write_partition :
      (m : ShuffleManager) (j : String) (s p : ℕ) (b : arrow.RecordBatch)
      (bs : List arrow.RecordBatch) (files files' : disk.Files)
      → write_partition m j s p (b ∷ bs) files ≡ ok files'
      → (read_partition m j s p files' ≡ ok (map ok (b ∷ bs)))
        × ((j' : String) (s' p' : ℕ)
            → ◌≢◌ {A = PartitionId} (j, (s, p)) (j', (s', p'))
            → read_partition m j' s' p' files' ≡ read_partition m j' s' p' files)
  unfolding write_partition read_partition get_partition_file
  read_partition-write_partition m j s p b bs files files' h =
      let dir = partition_dir m j s in
      let (mid, made, wrote) = bind-eq-ok (from_io (disk.create_dir_all dir files)) _ h in
      let (there, read) =
        disk.read-write (dir ++ partition_file p ∷ []) (disk.batch_schema b) (b ∷ bs) mid files'
          wrote in
      (
        rw there read,
        λ j' s' p' ne.
            let (same_exists, same_read) =
              disk.write-other (dir ++ partition_file p ∷ [])
                (partition_dir m j' s' ++ partition_file p' ∷ []) (disk.batch_schema b) (b ∷ bs) mid
                files' wrote (λ e. ne (get_partition_file-injective m j j' s s' p p' e)) in
            let (old_exists, old_read) =
              disk.create_dir_all-files dir (partition_dir m j' s') p' files mid
                (from_io-ok (disk.create_dir_all dir files) made) in
            rw (same_exists, same_read, old_exists, old_read) refl,
      )
