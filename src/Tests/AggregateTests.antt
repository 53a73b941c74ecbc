-- ===== src/Tests/AggregateTests.antt =====
-- The theorem about aggregations at a concrete input: names counted by their identifiers.
use mathlib.Core.List.{Perm}
use fdapquery.Base.{
  ℕ, pos, ◌++◌, ◌^◌, ◌≡◌, refl, none, some, List, [], ◌∷◌, filter, if◌then◌else◌, inl, inr,
  Bool-cases, arith,
}
use fdapquery.Arrow.{Kind}
use fdapquery.Errors.{ok, ◌>>=◌, traverse}
use fdapquery.Scalar.{ScalarValue, is_null}
use fdapquery.Scalar.Arrays.{cell_of, scalar_of}
use fdapquery.PhysicalExpr.{PhysicalExpr, AggregateExpr}
use fdapquery.Rows.{Row, read_rows}
use fdapquery.Rows.Read.{row_key}
use fdapquery.Rows.Write.{Fits, nil, cons}
use fdapquery.RowKey.{row_eq}
use fdapquery.ColumnarValue.{evaluate_column}
use fdapquery.Distributed.{AggregateMode}
use fdapquery.Accumulator.{Floats}
use fdapquery.Accumulator.Kinds.{
  Conversions, create_accumulator, accumulate, final_value, intermediate_value, merge,
}
use fdapquery.Accumulator.Counts.{accumulate_each, non_nulls, wrapped, final_value-merge_counts}
use fdapquery.Join.HashTable.{contains_key, matches}
use fdapquery.Shuffle.Buffers.{Inputs}
use fdapquery.Aggregate.{AggregateExec, fresh, feed, output, execute}
use fdapquery.Aggregate.Fold.{fold_rows, feed_values}
use fdapquery.Aggregate.Groups.{group_of, keys_of, add_key}
use fdapquery.Aggregate.Correct.{Groups, aggregates, group_rows, execute-group_rows}
use fdapquery.Tests.Sample.{sample}
use fdapquery.Tests.SampleArrow.{Batch, sample_arrow}
use fdapquery.Tests.JoinTests.{
  sample_hashing, names, names_batch, read_names, field, plan_of, two_kinds, int,
}

instance abbrev sample_floats : Floats
sample_floats = record { add_f32 = λ x y. x; add_f64 = λ x y. x }

instance abbrev sample_conversions : Conversions
sample_conversions = record {
  partial_cmp_f32 = λ x y. none;
  partial_cmp_f64 = λ x y. none;
  zero_f64 = 0;
  of_int = λ z. 0;
  of_f32 = λ x. x;
  truncate_f32 = λ x. pos x;
  truncate_f64 = λ x. pos x;
  divide = λ x y. x;
}

abbrev count_names : AggregateExec
count_names = record {
  mode = AggregateMode.single;
  group_expr = evaluate_column 0 ∷ [];
  aggr_expr =
      record {
        aggregate = AggregateExpr.count_expr (PhysicalExpr.column "name" 1);
        input_expression = evaluate_column 1;
      }
      ∷ [];
  input = plan_of (field "id" 4 ∷ field "name" 12 ∷ []) names_batch;
  schema = field "id" 4 ∷ field "COUNT" 4 ∷ [];
}

abbrev count_of : Row → Row
count_of key = if row_eq (int 1 ∷ []) key then int 1 ∷ [] else int 0 ∷ []

count_names-results :
    (key : Row)
    → (group_of AggregateMode.single (aggregates count_names) (0 ∷ []) (1 ∷ []) key names
        >>= λ accs. traverse (output AggregateMode.single) accs)
      ≡ ok (count_of key)
unfolding group_of fold_rows matches filter row_key feed_values feed fresh create_accumulator
    accumulate is_null traverse output final_value
count_names-results key = elim (Bool-cases (row_eq (int 1 ∷ []) key)) [
  | inl e ↦ elim (Bool-cases (row_eq (int 2 ∷ []) key)) [
    | inl e' ↦ rw (e, e') refl
    | inr e' ↦ rw (e, e') refl
  ]
  | inr e ↦ elim (Bool-cases (row_eq (int 2 ∷ []) key)) [
    | inl e' ↦ rw (e, e') refl
    | inr e' ↦ rw (e, e') refl
  ]
]

abbrev counts : List Kind
counts = Kind.int32 ∷ Kind.int32 ∷ []

counts-Fits : (m n : ℕ) → Fits counts (int m ∷ int n ∷ [])
unfolding cell_of scalar_of
counts-Fits m n = cons (some (pos m)) (cons (some (pos n)) nil)

count_names-Groups :
    Groups count_names two_kinds counts (0 ∷ []) (1 ∷ []) (names_batch ∷ []) names count_of
unfolding keys_of add_key contains_key row_key row_eq
count_names-Groups = record {
  groups = refl;
  inputs = refl;
  keys_in_range = omega arith;
  cols_in_range = omega arith;
  runs = refl;
  batches_of = Inputs.cons refl read_names Inputs.nil;
  results = count_names-results;
  writes = record {
    typed = (refl, (refl, tt));
    some_field = λ e. cc;
    nullable = (refl, (refl, tt));
  };
  fits = (counts-Fits 1 1, (counts-Fits 2 0, tt));
}

execute-group_rows_example :
    (b : Batch) × (out_rows : List Row) × (execute count_names 0 ≡ ok (ok b ∷ []))
    × (read_rows b ≡ ok out_rows)
    × Perm out_rows ((int 1 ∷ int 1 ∷ []) ∷ (int 2 ∷ int 0 ∷ []) ∷ [])
unfolding group_rows keys_of add_key contains_key row_key row_eq
execute-group_rows_example =
    execute-group_rows count_names two_kinds counts (0 ∷ []) (1 ∷ []) (names_batch ∷ []) names
      count_of count_names-Groups

abbrev count_column : AggregateExpr
count_column = AggregateExpr.count_expr (PhysicalExpr.column "name" 1)

abbrev first_values : List ScalarValue
first_values = ScalarValue.utf8 "a" ∷ ScalarValue.null ∷ ScalarValue.utf8 "b" ∷ []

abbrev second_values : List ScalarValue
second_values = ScalarValue.null ∷ ScalarValue.utf8 "c" ∷ []

count_of_parts : non_nulls (first_values ++ second_values) ≡ 3
unfolding non_nulls is_null
count_of_parts = refl

final_value-merge_counts_example :
    ((do
      counted ← accumulate_each (create_accumulator count_column) (first_values ++ second_values)
      final_value counted)
      ≡ ok (ScalarValue.int32 (wrapped (2 ^ 31) (non_nulls (first_values ++ second_values)))))
    × ((do
      counted ← accumulate_each (create_accumulator count_column) first_values
      other ← accumulate_each (create_accumulator count_column) second_values
      part ← intermediate_value other
      merge counted part)
        ≡ accumulate_each (create_accumulator count_column) (first_values ++ second_values))
final_value-merge_counts_example =
    final_value-merge_counts (PhysicalExpr.column "name" 1) first_values second_values
