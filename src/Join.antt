-- ===== src/Join.antt =====
-- fdapquery-physical-plan/src/hash_join_exec.rs: the hash join. The rows of the right input are put
-- in a hash map under their keys, and the rows of the left input look theirs up there. The map is a
-- list of entries that compares keys as `RowKey` does.
pub mod HashTable
pub mod Nested
pub mod Unmatched
pub mod Typed
pub mod Execute
pub mod Correct
pub mod Nulls
use fdapquery.Base.{
  ℕ, zero, suc, ◌+◌, String, concat, decimal, Bool, true, false, not, ◌||◌, Option, none, some,
  List, [], ◌∷◌, ◌++◌, map, length, is_empty, ◌==◌, if◌then◌else◌,
}
use fdapquery.External.{External}
use fdapquery.Arrow.{Arrow}
use fdapquery.Errors.{Outcome, ok, err, panic, ◌>>=◌, internal}
use fdapquery.PhysicalExpr
use fdapquery.PhysicalExpr.{PhysicalExpr}
use fdapquery.Plan.{JoinType}
use fdapquery.Scalar.{ScalarValue}
use fdapquery.Scalar.Arrays.{replicate}
use fdapquery.Rows.{Row, columns_of, key_of, full_row, for_rows, create_batch}
use fdapquery.RowKey.{Hashing}
use fdapquery.Join.HashTable.{Table, kept, combine_rows, insert_row, get_rows, contains_key}

-- `Auto` stands for `Partitioned`.
pub data PartitionMode : Type 0 where
  partitioned collect_left auto : PartitionMode

pub data NullEquality : Type 0 where
  null_equals_nothing null_equals_null : NullEquality

-- `{:?}` of a join type.
unfoldable pub debug_join_type : JoinType → String
debug_join_type JoinType.inner = "Inner"
debug_join_type JoinType.left = "Left"
debug_join_type JoinType.right = "Right"
debug_join_type JoinType.full = "Full"
debug_join_type JoinType.left_semi = "LeftSemi"
debug_join_type JoinType.right_semi = "RightSemi"
debug_join_type JoinType.left_anti = "LeftAnti"
debug_join_type JoinType.right_anti = "RightAnti"
debug_join_type JoinType.left_mark = "LeftMark"
debug_join_type JoinType.right_mark = "RightMark"

module _ ⦃ext : External⦄ where
  unfoldable pub on_index : PhysicalExpr → (side : String) → Outcome ℕ
  on_index (PhysicalExpr.column name index) side = ok index
  on_index expr side = err (
      internal (
        concat (
          "HashJoinExec: "
          ∷ side
          ∷ " join key must be a Column expression, got: "
          ∷ PhysicalExpr.to_string expr
          ∷ [])))

  -- The loop over `self.on`.
  unfoldable pub join_keys : List (PhysicalExpr × PhysicalExpr) → Outcome (List ℕ × List ℕ)
  unfolding on_index
  join_keys [] = ok ([], [])
  join_keys ((l, r) ∷ on) = do
    left ← on_index l "left"
    right ← on_index r "right"
    rest ← join_keys on
    ok (left ∷ rest.0, right ∷ rest.1)

module _ ⦃ext : External⦄ ⦃arrow : Arrow⦄ where
  -- What `next` returns, one after another. A stream ends after its first failure.
  abbrev pub Stream : Type 0
  Stream = List (Outcome arrow.RecordBatch)

  pub record ExecutionPlan : Type 0 where
    pub schema : ext.Schema
    pub execute : ℕ → Outcome Stream

  pub record HashJoinExec : Type 0 where
    pub left : ExecutionPlan
    pub right : ExecutionPlan
    pub on : List (PhysicalExpr × PhysicalExpr)
    pub join_type : JoinType
    pub join_schema : ext.Schema
    pub mode : PartitionMode
    pub null_equality : NullEquality
    pub right_columns_to_exclude : List ℕ

  -- `yield item?`, and the rest of the stream after it.
  unfoldable pub yield_then : Outcome arrow.RecordBatch → Stream → Stream
  yield_then (ok batch) rest = ok batch ∷ rest
  yield_then (err e) rest = err e ∷ []
  yield_then (panic m) rest = panic m ∷ []

  -- Rows are yielded as one batch, none as no batch.
  unfoldable pub yield_rows : Outcome (List Row) → ext.Schema → Stream → Stream
  unfolding yield_then
  yield_rows (ok rows) schema rest =
      if is_empty rows then rest else yield_then (create_batch rows schema) rest
  yield_rows (err e) schema rest = err e ∷ []
  yield_rows (panic m) schema rest = panic m ∷ []

module _ ⦃ext : External⦄ ⦃arrow : Arrow⦄ ⦃hashing : Hashing⦄ where
  -- The rows of a batch of the right input are put in the table.
  unfoldable pub build_row : List ℕ → arrow.RecordBatch → ℕ → Table → Outcome Table
  build_row keys batch row table = do
    key ← key_of (columns_of batch) keys row
    values ← full_row (columns_of batch) row
    ok (insert_row key values table)

  unfoldable pub build_batch : List ℕ → arrow.RecordBatch → Table → Outcome Table
  unfolding build_row
  build_batch keys batch table = for_rows (build_row keys batch) 0 (arrow.num_rows batch) table

  -- `while let Some(batch_res) = right_pinned.next().await`.
  unfoldable pub build_table : List ℕ → Stream → Table → Outcome Table
  build_table keys [] table = ok table
  build_table keys (item ∷ input) table = do
    batch ← item
    table' ← build_batch keys batch table
    build_table keys input table'

  -- What is pushed for a left row, by the join type and the rows that its key finds.
  unfoldable pub joined :
      JoinType → (right_width : ℕ) → (excluded : List ℕ) → Row → Option (List Row) → List Row
  joined jt width excluded left (some rows) = map (λ r. combine_rows left r excluded) rows
  joined JoinType.left width excluded left none =
      combine_rows left (replicate width ScalarValue.null) excluded ∷ []
  joined jt width excluded left none = []

  -- `self.right.schema().fields().len()`.
  abbrev pub width_of : ExecutionPlan → ℕ
  width_of plan = length (ext.fields plan.schema)

  module _ (plan : HashJoinExec) (left_keys : List ℕ) (table : Table) where
    unfoldable pub probe_row : arrow.RecordBatch → ℕ → List Row → Outcome (List Row)
    probe_row batch row output_rows = do
      probe_key ← key_of (columns_of batch) left_keys row
      left_row ← full_row (columns_of batch) row
      ok (
          output_rows
          ++ joined plan.join_type (width_of plan.right) plan.right_columns_to_exclude left_row
              (get_rows probe_key table))

    unfoldable pub probe_batch : arrow.RecordBatch → Outcome (List Row)
    unfolding probe_row
    probe_batch batch = for_rows (probe_row batch) 0 (arrow.num_rows batch) []

    -- The loop over the left input, and what is yielded after it.
    unfoldable pub probe : Stream → Stream → Stream
    probe [] after = after
    probe (item ∷ input) after =
        yield_rows (item >>= λ batch. probe_batch batch) plan.join_schema (probe input after)

    -- The second pass of a right join: the keys of the table that the left input has.
    unfoldable pub match_row : arrow.RecordBatch → ℕ → List Row → Outcome (List Row)
    match_row batch row matched_keys = do
      probe_key ← key_of (columns_of batch) left_keys row
      ok (elim (get_rows probe_key table) [
        | none ↦ matched_keys
        | some rows ↦ probe_key ∷ matched_keys
      ])

    unfoldable pub match_keys : Stream → List Row → Outcome (List Row)
    match_keys [] matched_keys = ok matched_keys
    match_keys (item ∷ input) matched_keys = do
      batch ← item
      keys ← for_rows (match_row batch) 0 (arrow.num_rows batch) matched_keys
      match_keys input keys

    -- `for (key, rows) in &hash_table`, of the keys that were not matched.
    unfoldable pub unmatched : List Row → Table → List Row
    unmatched matched_keys [] = []
    unmatched matched_keys ((key, rows) ∷ entries) =
        let rest = unmatched matched_keys entries in
        let null_left = replicate (width_of plan.left) ScalarValue.null in
        if contains_key matched_keys key
        then rest
        else map (λ r. combine_rows null_left r plan.right_columns_to_exclude) rows ++ rest

    unmatched_rows : Outcome (List Row)
    unfolding match_keys unmatched
    unmatched_rows = do
      left_stream_2 ← plan.left.execute 0
      matched_keys ← match_keys left_stream_2 []
      ok (unmatched matched_keys (hashing.iterate table))

    -- What is yielded after the left input: for a right join its unmatched rows.
    unfoldable pub after_probe : JoinType → Stream
    unfolding unmatched_rows
    after_probe JoinType.right = yield_rows unmatched_rows plan.join_schema []
    after_probe _ = []

  unfoldable pub run_probe : HashJoinExec → List ℕ → Outcome Table → Outcome Stream → Stream
  unfolding probe after_probe
  run_probe plan left_keys (ok table) (ok left_stream) =
      probe plan left_keys table left_stream (after_probe plan left_keys table plan.join_type)
  run_probe plan left_keys (ok table) (err e) = err e ∷ []
  run_probe plan left_keys (ok table) (panic m) = panic m ∷ []
  run_probe plan left_keys (err e) left = err e ∷ []
  run_probe plan left_keys (panic m) left = panic m ∷ []

  -- The stream of a supported join.
  unfoldable pub join_stream : HashJoinExec → (left_keys right_keys : List ℕ) → Stream
  unfolding run_probe build_table
  join_stream plan left_keys right_keys =
      run_probe plan left_keys
        (plan.right.execute 0 >>= λ right_stream. build_table right_keys right_stream [])
        (plan.left.execute 0)

  unfoldable pub is_implemented : JoinType → Bool
  is_implemented JoinType.inner = true
  is_implemented JoinType.left = true
  is_implemented JoinType.right = true
  is_implemented _ = false

  -- `HashJoinExec::execute`.
  unfoldable pub execute : HashJoinExec → ℕ → Outcome Stream
  unfolding is_implemented join_keys debug_join_type
  execute plan partition =
      if not (partition == 0)
      then err (
          internal (
            concat (
              "HashJoinExec has 1 output partition; partition "
              ∷ decimal partition
              ∷ " is out of range"
              ∷ [])))
      else if not (is_implemented plan.join_type)
      then err (
          internal (
            concat (
              "HashJoinExec: JoinType::"
              ∷ debug_join_type plan.join_type
              ∷ " is not yet implemented; supported variants are Inner, Left, Right"
              ∷ [])))
      else join_keys plan.on >>= λ keys. ok (join_stream plan keys.0 keys.1)
