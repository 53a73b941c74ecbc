-- ===== src/Tests/ShuffleTests.antt =====
-- A concrete file system, and the theorems about values and shuffles at concrete inputs.
use mathlib.Core.List.{Perm}
use fdapquery.Base.{
  ℕ, pos, String, ◌≡◌, ◌≢◌, ◌↔◌, refl, subst, Bool, true, false, ◌&&◌, Option, none, some, ◌⊎◌, inl,
  inr, List, [], ◌∷◌, ◌++◌, map, length, All, ◌==◌, text_eq, eq_iff, if◌then◌else◌, Bool-cases,
  arith,
}
use fdapquery.Arrow.{Kind}
use fdapquery.Errors.{Outcome, ok, err, ok-injective, execution, traverse}
use fdapquery.Scalar.{ScalarValue}
use fdapquery.Scalar.Arrays.{to_array_of_size}
use fdapquery.Rows.{read_rows}
use fdapquery.Rows.RoundTrip.{Writes}
use fdapquery.ColumnarValue.{
  ColumnarValue, array, scalar, into_array, values_to_arrays, evaluate_column,
}
use fdapquery.ColumnarValue.Lengths.{values_to_arrays-lengths}
use fdapquery.Distributed.{ShuffleLocation}
use fdapquery.Join.{Stream}
use fdapquery.Join.Nested.{StreamRows}
use fdapquery.Shuffle.{ShuffleWriterExec, TaskContext, write_shuffle, execute, select_rows}
use fdapquery.Shuffle.Manager.{
  Component, text, number, partition_file, PathBuf, ShuffleManager, Disk, partition_dir,
  write_partition, read_partition,
}
use fdapquery.Shuffle.Files.{PartitionId, read_partition-write_partition}
use fdapquery.Shuffle.Parts.{parts, flatten}
use fdapquery.Shuffle.Targets.{bucket}
use fdapquery.Shuffle.Select.{pick}
use fdapquery.Shuffle.Pick.{OfKinds, select_rows-pick}
use fdapquery.Shuffle.Buffers.{nil, cons}
use fdapquery.Shuffle.Written.{Accepts}
use fdapquery.Shuffle.RoundTrip.{Shuffles, execute-write_shuffle}
use fdapquery.Tests.Sample.{SampleField, sample}
use fdapquery.Tests.SampleArrow.{Column, Batch, sample_arrow}
use fdapquery.Tests.JoinTests.{
  sample_hashing, names, names_batch, read_names, field, plan_of, two_kinds, int,
}

component_eq : Component → Component → Bool
component_eq (text a) (text b) = text_eq a b
component_eq (number m) (number n) = m == n
component_eq (partition_file m) (partition_file n) = m == n
component_eq _ _ = false

component_eq_iff : (a b : Component) → (component_eq a b ≡ true) ↔ (a ≡ b)
unfolding component_eq
component_eq_iff (text a) (text b) = ground (arith, eq_iff a b)
component_eq_iff (number m) (number n) = ground arith
component_eq_iff (partition_file m) (partition_file n) = ground arith
component_eq_iff _ _ = (λ h. cc, λ h. cc)

path_eq : PathBuf → PathBuf → Bool
unfolding component_eq
path_eq [] [] = true
path_eq (a ∷ p) (b ∷ q) = component_eq a b && path_eq p q
path_eq _ _ = false

path_eq_iff : (p q : PathBuf) → (path_eq p q ≡ true) ↔ (p ≡ q)
unfolding path_eq
path_eq_iff [] [] = (λ h. refl, λ h. refl)
path_eq_iff [] (b ∷ q) = (λ h. cc, λ h. cc)
path_eq_iff (a ∷ p) [] = (λ h. cc, λ h. cc)
path_eq_iff (a ∷ p) (b ∷ q) = ground (arith, component_eq_iff a b, path_eq_iff p q)

path_ne : (p q : PathBuf) → p ≢ q → path_eq p q ≡ false
path_ne p q ne = elim (Bool-cases (path_eq p q)) [
  | inl e ↦ absurd (ne ((path_eq_iff p q).0 e))
  | inr e ↦ e
]

made : {A : Type 0} {a b : A} → ◌≡◌ {A = Unit {0} ⊎ A} (inr a) (inr b) → a ≡ b
made h = cc

abbrev SampleFiles : Type 0
SampleFiles = PathBuf → Option (List Batch)

sample_write : PathBuf → List Batch → SampleFiles → SampleFiles
unfolding path_eq
sample_write p bs files q = if path_eq p q then some bs else files q

abbrev is_file : Option (List Batch) → Bool
is_file none = false
is_file (some bs) = true

abbrev file_stream : Option (List Batch) → Outcome Stream
file_stream none = err (execution "not found")
file_stream (some bs) = ok (map ok bs)

written_here :
    (p : PathBuf) (bs : List Batch) (files : SampleFiles) → sample_write p bs files p ≡ some bs
unfolding sample_write
written_here p bs files = rw ((path_eq_iff p p).1 refl) refl

written_other :
    (p q : PathBuf) (bs : List Batch) (files : SampleFiles)
    → p ≢ q
    → sample_write p bs files q ≡ files q
unfolding sample_write
written_other p q bs files ne = rw (path_ne p q ne) refl

instance abbrev sample_disk : Disk
sample_disk = record {
  Files = SampleFiles;
  display = λ p. "path";
  exists = λ files p. is_file (files p);
  create_dir_all = λ dir files. inr files;
  batch_schema = λ b. [];
  write_file = λ p s bs files. ok (sample_write p bs files);
  read_file = λ p files. file_stream (files p);
  read-write = λ p s bs files files' h.
      subst (λ (fs : SampleFiles). (is_file (fs p) ≡ true) × (file_stream (fs p) ≡ ok (map ok bs)))
        (ok-injective h) (rw (written_here p bs files) (refl, refl));
  write-other = λ p q s bs files files' h ne.
      subst
        (λ (fs : SampleFiles).
          (is_file (fs q) ≡ is_file (files q)) × (file_stream (fs q) ≡ file_stream (files q)))
        (ok-injective h) (rw (written_other p q bs files ne) (refl, refl));
  create_dir_all-files = λ dir d n files files' h.
      subst
        (λ (fs : SampleFiles).
          (is_file (fs (d ++ partition_file n ∷ [])) ≡ is_file (files (d ++ partition_file n ∷ [])))
          × (file_stream (fs (d ++ partition_file n ∷ []))
              ≡ file_stream (files (d ++ partition_file n ∷ []))))
        (made h) (refl, refl);
}

sample_disk-Accepts : Accepts
sample_disk-Accepts = record {
  makes = λ dir files. (files, refl);
  writes = λ p s bs files. (sample_write p bs files, refl);
}

abbrev manager : ShuffleManager
manager = record { base_dir = "/tmp/shuffle" }

abbrev no_files : SampleFiles
no_files q = none

abbrev one_file : SampleFiles
one_file =
    sample_write (text "/tmp/shuffle" ∷ text "job" ∷ number 1 ∷ partition_file 2 ∷ [])
      (names_batch ∷ []) no_files

write_one : write_partition manager "job" 1 2 (names_batch ∷ []) no_files ≡ ok one_file
unfolding write_partition partition_dir
write_one = refl

read_partition-write_partition_example :
    (read_partition manager "job" 1 2 one_file ≡ ok (ok names_batch ∷ []))
    × ((j' : String) (s' p' : ℕ)
        → ◌≢◌ {A = PartitionId} ("job", (1, 2)) (j', (s', p'))
        → read_partition manager j' s' p' one_file ≡ read_partition manager j' s' p' no_files)
read_partition-write_partition_example =
    read_partition-write_partition manager "job" 1 2 names_batch [] no_files one_file write_one

abbrev states_column : Column
states_column = record {
  kind = Kind.utf8;
  cells = ScalarValue.utf8 "CO" ∷ ScalarValue.utf8 "CA" ∷ [];
}

abbrev mixed : List ColumnarValue
mixed = scalar (int 7) ∷ array states_column ∷ []

abbrev mixed_arrays : List Column
mixed_arrays = to_array_of_size (int 7) 2 ∷ states_column ∷ []

mixed_answers : values_to_arrays mixed ≡ ok mixed_arrays
unfolding values_to_arrays traverse into_array
mixed_answers = refl

values_to_arrays-lengths_example :
    (n : ℕ) × (mixed_arrays ≡ map (λ a. into_array a n) mixed)
    × All (λ (a : Column). length a.cells ≡ n) mixed_arrays
values_to_arrays-lengths_example = values_to_arrays-lengths mixed mixed_arrays mixed_answers

abbrev id_name : List SampleField
id_name = field "id" 4 ∷ field "name" 12 ∷ []

id_name-Writes : Writes id_name two_kinds
id_name-Writes = record {
  typed = (refl, (refl, tt));
  some_field = λ e. cc;
  nullable = (refl, (refl, tt));
}

select_rows-pick_example :
    (b : Batch) × (select_rows names_batch id_name (false ∷ true ∷ []) ≡ ok b)
    × (read_rows b ≡ ok ((int 2 ∷ ScalarValue.null ∷ []) ∷ []))
    × OfKinds two_kinds b.columns
unfolding pick
select_rows-pick_example =
    select_rows-pick two_kinds names_batch id_name (false ∷ true ∷ []) names id_name-Writes refl
      read_names refl

abbrev names_writer : ShuffleWriterExec
names_writer = record {
  input = plan_of id_name names_batch;
  partition_expr = evaluate_column 0 ∷ [];
  job_uuid = "job";
  stage_id = 1;
  partition_count = pos 2;
}

abbrev context : TaskContext
context = record {
  executor_id = "a";
  executor_host = "localhost";
  executor_port = 1;
  shuffle_manager = manager;
}

names-Shuffles : Shuffles names_writer 1 (0 ∷ []) two_kinds (names_batch ∷ []) names
names-Shuffles = record {
  counts = refl;
  exprs = refl;
  in_range = omega arith;
  runs = refl;
  inputs = cons refl read_names nil;
  writes = id_name-Writes;
}

execute-write_shuffle_example :
    (locations : List ShuffleLocation) × (files' : SampleFiles) × (out : Stream) × (write_shuffle
        names_writer context no_files
      ≡ ok (locations, files'))
    × (execute (record { shuffle_schema = id_name; shuffle_locations = locations }) 0 context files'
        ≡ ok out)
    × StreamRows out (flatten (parts (bucket 1 (0 ∷ [])) 0 2 names))
    × Perm (flatten (parts (bucket 1 (0 ∷ [])) 0 2 names)) names
execute-write_shuffle_example =
    execute-write_shuffle names_writer context 1 (0 ∷ []) two_kinds (names_batch ∷ []) names id_name
      no_files names-Shuffles sample_disk-Accepts
