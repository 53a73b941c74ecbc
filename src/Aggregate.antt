-- ===== src/Aggregate.antt =====
-- fdapquery-physical-plan/src/aggregate_exec.rs: the hash aggregation. The map from a group's key to
-- its accumulators is a list of entries that compares keys as `GroupKey` does, which is as `RowKey`
-- does. An input expression is its `evaluate`.
pub mod Fold
pub mod Groups
pub mod Output
pub mod Correct
use fdapquery.Base.{
  ℕ, zero, suc, ◌+◌, String, concat, decimal, Bool, not, List, [], ◌∷◌, map, length, ◌==◌,
  if◌then◌else◌,
}
use fdapquery.External.{External}
use fdapquery.Arrow.{Arrow}
use fdapquery.Errors.{Outcome, ok, err, panic, ◌>>=◌, traverse, internal, not_implemented}
use fdapquery.Scalar.{ScalarValue}
use fdapquery.Scalar.Arrays.{try_from_array}
use fdapquery.Scalar.Builder.{ArrowVectorBuilder, new_builder, append_value, build}
use fdapquery.PhysicalExpr.{AggregateExpr}
use fdapquery.Rows.{Row, columns_of, create, for_rows, append_row}
use fdapquery.RowKey.{Hashing, row_eq}
use fdapquery.ColumnarValue.{ColumnarValue}
use fdapquery.Distributed.{AggregateMode}
use fdapquery.Join.{Stream, ExecutionPlan, yield_then}
use fdapquery.Accumulator.{Floats, AccumulatorValue, scalar, avg_state}
use fdapquery.Accumulator.Kinds.{
  Accumulator, Conversions, create_accumulator, accumulate, merge, final_value, intermediate_value,
}
use fdapquery.Shuffle.{key_columns}

module _ ⦃ext : External⦄ ⦃arrow : Arrow⦄ where
  -- An aggregate with its input expression.
  pub record Aggregated : Type 0 where
    pub aggregate : AggregateExpr
    pub input_expression : arrow.RecordBatch → Outcome ColumnarValue

  -- `group_expr` is the input expressions of `group_by`.
  pub record AggregateExec : Type 0 where
    pub mode : AggregateMode
    pub group_expr : List (arrow.RecordBatch → Outcome ColumnarValue)
    pub aggr_expr : List Aggregated
    pub input : ExecutionPlan
    pub schema : ext.Schema

unfoldable pub is_final : AggregateMode → Bool
is_final AggregateMode.final = Bool.true
is_final AggregateMode.final_partitioned = Bool.true
is_final _ = Bool.false

unfoldable pub is_partial : AggregateMode → Bool
is_partial AggregateMode.partial = Bool.true
is_partial AggregateMode.partial_reduce = Bool.true
is_partial _ = Bool.false

module _ ⦃ext : External⦄ where
  abbrev pub GroupTable : Type 0
  GroupTable = List (Row × List Accumulator)

module _ ⦃ext : External⦄ ⦃floats : Floats⦄ ⦃conversions : Conversions⦄ where
  unfoldable pub fresh : List AggregateExpr → List Accumulator
  fresh aggs = map create_accumulator aggs

  -- What a value does to an accumulator.
  unfoldable pub feed : AggregateMode → Accumulator → ScalarValue → Outcome Accumulator
  unfolding is_final
  feed mode acc value = if is_final mode then merge acc (scalar value) else accumulate acc value

  -- A group's result from an accumulator.
  unfoldable pub partial_output : AccumulatorValue → Outcome ScalarValue
  partial_output (scalar s) = ok s
  partial_output (avg_state sum count) = err (
      not_implemented
        "AggregateExec PARTIAL output of AVG intermediate state requires the distributed module")

  unfoldable pub output : AggregateMode → Accumulator → Outcome ScalarValue
  unfolding is_partial partial_output
  output mode acc =
      if is_partial mode then intermediate_value acc >>= partial_output else final_value acc

  -- `builders[n_group + i].append_value(&output)` for each accumulator.
  unfoldable pub append_outputs :
      AggregateMode
      → (n_group : ℕ) → List ArrowVectorBuilder
      → List Accumulator
      → Outcome (List ArrowVectorBuilder)
  unfolding output
  append_outputs mode n_group bs [] = ok bs
  append_outputs mode n_group [] (acc ∷ accs) = output mode acc >>= λ v. panic "index out of bounds"
  append_outputs mode (suc n) (b ∷ bs) (acc ∷ accs) =
      append_outputs mode n bs (acc ∷ accs) >>= λ bs'. ok (b ∷ bs')
  append_outputs mode zero (b ∷ bs) (acc ∷ accs) = do
    v ← output mode acc
    b' ← append_value b v
    bs' ← append_outputs mode zero bs accs
    ok (b' ∷ bs')

  unfoldable pub append_group :
      AggregateMode
      → (n_group : ℕ) → List ArrowVectorBuilder
      → Row × List Accumulator
      → Outcome (List ArrowVectorBuilder)
  unfolding append_outputs
  append_group mode n_group bs (key, accs) = do
    bs' ← append_row bs key
    append_outputs mode n_group bs' accs

  unfoldable pub append_groups :
      AggregateMode
      → (n_group : ℕ) → List ArrowVectorBuilder
      → GroupTable
      → Outcome (List ArrowVectorBuilder)
  unfolding append_group
  append_groups mode n_group bs [] = ok bs
  append_groups mode n_group bs (entry ∷ entries) = do
    bs' ← append_group mode n_group bs entry
    append_groups mode n_group bs' entries

module _ ⦃ext : External⦄ ⦃hashing : Hashing⦄ where
  -- `map.entry(key).or_insert_with(fresh)`, and what is done to the accumulators there.
  unfoldable pub update_group :
      Row
      → List Accumulator
      → (List Accumulator → Outcome (List Accumulator))
      → GroupTable
      → Outcome GroupTable
  update_group key new change [] = change new >>= λ accs. ok ((key, accs) ∷ [])
  update_group key new change ((k, accs) ∷ table) =
      let rest = update_group key new change table in
      if row_eq k key
      then (change accs >>= λ accs'. ok ((k, accs') ∷ table))
      else (rest >>= λ table'. ok ((k, accs) ∷ table'))

module _ ⦃ext : External⦄ ⦃arrow : Arrow⦄ ⦃hashing : Hashing⦄ ⦃floats : Floats⦄
    ⦃conversions : Conversions⦄ where
  -- `accumulators.iter_mut().enumerate()`, with the cells of `aggr_inputs`.
  unfoldable pub feed_cells :
      AggregateMode
      → List arrow.ArrayRef
      → (row : ℕ) → List Accumulator
      → Outcome (List Accumulator)
  unfolding feed
  feed_cells mode inputs row [] = ok []
  feed_cells mode [] row (acc ∷ accs) = panic "index out of bounds"
  feed_cells mode (c ∷ inputs) row (acc ∷ accs) = do
    value ← try_from_array c row
    acc' ← feed mode acc value
    accs' ← feed_cells mode inputs row accs
    ok (acc' ∷ accs')

  unfoldable pub group_row :
      AggregateMode
      → List AggregateExpr
      → (group_keys aggr_inputs : List arrow.ArrayRef) → (row : ℕ) → GroupTable
      → Outcome GroupTable
  unfolding feed_cells update_group fresh
  group_row mode aggs group_keys aggr_inputs row table = do
    key ← traverse (λ c. try_from_array c row) group_keys
    update_group key (fresh aggs) (feed_cells mode aggr_inputs row) table

  unfoldable pub group_batch : AggregateExec → arrow.RecordBatch → GroupTable → Outcome GroupTable
  unfolding group_row
  group_batch plan batch table = do
    group_keys ← key_columns plan.group_expr batch
    aggr_inputs ← key_columns (map (λ a. a.input_expression) plan.aggr_expr) batch
    for_rows (group_row plan.mode (map (λ a. a.aggregate) plan.aggr_expr) group_keys aggr_inputs) 0
        (arrow.num_rows batch) table

  -- The loop over the input.
  unfoldable pub group_all : AggregateExec → Stream → GroupTable → Outcome GroupTable
  unfolding group_batch
  group_all plan [] table = ok table
  group_all plan (item ∷ input) table = do
    batch ← item
    table' ← group_batch plan batch table
    group_all plan input table'

  -- One row for each group.
  unfoldable pub output_batch : AggregateExec → GroupTable → Outcome arrow.RecordBatch
  unfolding append_groups
  output_batch plan table = do
    new ← traverse (λ f. new_builder (ext.data_type f)) (ext.fields plan.schema)
    builders ← append_groups plan.mode (length plan.group_expr) new (hashing.iterate table)
    create plan.schema (map build builders)

  -- `AggregateExec::execute`.
  unfoldable pub execute : AggregateExec → (partition : ℕ) → Outcome Stream
  unfolding group_all output_batch
  execute plan partition =
      if not (partition == 0)
      then err (
          internal (
            concat (
              "AggregateExec has 1 output partition; partition "
              ∷ decimal partition
              ∷ " is out of range"
              ∷ [])))
      else plan.input.execute 0 >>= λ input_stream.
          ok (yield_then (group_all plan input_stream [] >>= λ table. output_batch plan table) [])
