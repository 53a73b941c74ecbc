-- ===== src/Tests/JoinTests.antt =====
-- The theorems about columns, batches and joins at concrete inputs.
use mathlib.Core.List.{reverse, Perm}
use mathlib.Core.List.Permᴰ
use fdapquery.Base.{
  ℕ, pos, String, ◌≡◌, refl, true, none, some, List, [], ◌∷◌, ◌++◌, length, filter, arith,
}
use fdapquery.Arrow.{Kind}
use fdapquery.Errors.{ok, traverse}
use fdapquery.Plan.{JoinType}
use fdapquery.Scalar.{ScalarValue}
use fdapquery.Scalar.Arrays.{cell_of, scalar_of, try_from_array, replicate}
use fdapquery.Rows.{Row, read_rows, full_row}
use fdapquery.Rows.Write.{Fits, nil, cons}
use fdapquery.Rows.Read.{row_key}
use fdapquery.RowKey.{Hashing, row_eq}
use fdapquery.PhysicalExpr.{PhysicalExpr}
use fdapquery.Join.{
  Stream, ExecutionPlan, HashJoinExec, PartitionMode, NullEquality, execute, join_keys,
  is_implemented,
}
use fdapquery.Join.HashTable.{kept, contains_index, matches, combine_rows}
use fdapquery.Join.Nested.{StreamRows, flat, nested_row, nested_loop}
use fdapquery.Join.Nulls.{execute-null_keys}
use fdapquery.Join.Correct.{Ready, right_alone, execute-nested_loop}
use fdapquery.Tests.Sample.{SampleField, sample}
use fdapquery.Tests.SampleArrow.{Batch, sample_arrow, sample_value, sample_is_null, sample_kind_of}

instance abbrev pub sample_hashing : Hashing
sample_hashing = record {
  f32_bits = λ x. x;
  f64_bits = λ x. x;
  finish = λ feeds. length feeds;
  iterate = λ xs. reverse xs;
  iterate-perm = λ xs. Permᴰ.reverse xs;
  f32_bits-injective = λ x y h. h;
  f64_bits-injective = λ x y h. h;
}

abbrev pub int : ℕ → ScalarValue
int n = ScalarValue.int32 (pos n)

abbrev pub text : String → ScalarValue
text s = ScalarValue.utf8 s

abbrev pub names : List Row
names = (int 1 ∷ text "Ann" ∷ []) ∷ (int 2 ∷ ScalarValue.null ∷ []) ∷ []

abbrev states : List Row
states = (int 1 ∷ text "CO" ∷ []) ∷ (int 3 ∷ text "CA" ∷ []) ∷ []

abbrev pub names_batch : Batch
names_batch = record {
  count = 2;
  columns =
      record { kind = Kind.int32; cells = int 1 ∷ int 2 ∷ [] }
      ∷ record { kind = Kind.utf8; cells = text "Ann" ∷ ScalarValue.null ∷ [] }
      ∷ [];
}

abbrev states_batch : Batch
states_batch = record {
  count = 2;
  columns =
      record { kind = Kind.int32; cells = int 1 ∷ int 3 ∷ [] }
      ∷ record { kind = Kind.utf8; cells = text "CO" ∷ text "CA" ∷ [] }
      ∷ [];
}

pub read_names : read_rows names_batch ≡ ok names
unfolding read_rows full_row try_from_array sample_value sample_is_null sample_kind_of scalar_of
    traverse
read_names = refl

read_states : read_rows states_batch ≡ ok states
unfolding read_rows full_row try_from_array sample_value sample_is_null sample_kind_of scalar_of
    traverse
read_states = refl

abbrev pub field : String → ℕ → SampleField
field name t = record { name = name; data_type = t; nullable = true }

abbrev pub plan_of : List SampleField → Batch → ExecutionPlan
plan_of schema batch = record { schema = schema; execute = λ partition. ok (ok batch ∷ []) }

-- A join by `id`, which is kept on the left side only.
abbrev by_id : JoinType → HashJoinExec
by_id jt = record {
  left = plan_of (field "id" 4 ∷ field "name" 12 ∷ []) names_batch;
  right = plan_of (field "id" 4 ∷ field "state" 12 ∷ []) states_batch;
  on = (PhysicalExpr.column "id" 0, PhysicalExpr.column "id" 0) ∷ [];
  join_type = jt;
  join_schema = field "id" 4 ∷ field "name" 12 ∷ field "state" 12 ∷ [];
  mode = PartitionMode.partitioned;
  null_equality = NullEquality.null_equals_nothing;
  right_columns_to_exclude = 0 ∷ [];
}

abbrev pub two_kinds : List Kind
two_kinds = Kind.int32 ∷ Kind.utf8 ∷ []

pub int-text-Fits : (n : ℕ) (s : String) → Fits two_kinds (int n ∷ text s ∷ [])
unfolding cell_of scalar_of
int-text-Fits n s = cons (some (pos n)) (cons (some s) nil)

pub int_null-Fits : (n : ℕ) → Fits two_kinds (int n ∷ ScalarValue.null ∷ [])
unfolding cell_of scalar_of
int_null-Fits n = cons (some (pos n)) (cons none nil)

by_id-Ready : (jt : JoinType) → Ready (by_id jt) two_kinds two_kinds (0 ∷ []) (0 ∷ []) names states
unfolding join_keys kept contains_index
by_id-Ready jt = record {
  keys = refl;
  left_stream = ok names_batch ∷ [];
  left_runs = refl;
  left_rows = StreamRows.cons read_names StreamRows.nil refl;
  left_typed = (refl, (refl, tt));
  left_fits = (int-text-Fits 1 "Ann", (int_null-Fits 2, tt));
  left_in_range = omega arith;
  right_stream = ok states_batch ∷ [];
  right_runs = refl;
  right_rows = StreamRows.cons read_states StreamRows.nil refl;
  right_typed = (refl, (refl, tt));
  right_fits = (int-text-Fits 1 "CO", (int-text-Fits 3 "CA", tt));
  right_in_range = omega arith;
  writes = record {
    typed = (refl, (refl, (refl, tt)));
    some_field = λ e. cc;
    nullable = (refl, (refl, (refl, tt)));
  };
}

execute-nested_loop_example :
    (out : Stream) × (last : List Row) × (execute (by_id JoinType.right) 0 ≡ ok out)
    × StreamRows out (((int 1 ∷ text "Ann" ∷ text "CO" ∷ []) ∷ []) ++ last)
    × Perm last ((ScalarValue.null ∷ ScalarValue.null ∷ text "CA" ∷ []) ∷ [])
unfolding nested_loop right_alone nested_row flat filter matches row_eq row_key combine_rows kept
    contains_index replicate is_implemented
execute-nested_loop_example =
    execute-nested_loop (by_id JoinType.right) two_kinds two_kinds (0 ∷ []) (0 ∷ []) names states
      (by_id-Ready JoinType.right) refl

abbrev null_row : Row
null_row = ScalarValue.null ∷ text "Bo" ∷ []

abbrev null_batch : Batch
null_batch = record {
  count = 1;
  columns =
      record { kind = Kind.int32; cells = ScalarValue.null ∷ [] }
      ∷ record { kind = Kind.utf8; cells = text "Bo" ∷ [] }
      ∷ [];
}

read_null : read_rows null_batch ≡ ok (null_row ∷ [])
unfolding read_rows full_row try_from_array sample_value sample_is_null sample_kind_of scalar_of
    traverse
read_null = refl

abbrev null_plan : HashJoinExec
null_plan = record {
  left = plan_of (field "id" 4 ∷ field "name" 12 ∷ []) null_batch;
  right = plan_of (field "id" 4 ∷ field "name" 12 ∷ []) null_batch;
  on = (PhysicalExpr.column "id" 0, PhysicalExpr.column "id" 0) ∷ [];
  join_type = JoinType.inner;
  join_schema = field "id" 4 ∷ field "name" 12 ∷ field "name" 12 ∷ [];
  mode = PartitionMode.partitioned;
  null_equality = NullEquality.null_equals_nothing;
  right_columns_to_exclude = 0 ∷ [];
}

null_row-Fits : Fits two_kinds null_row
unfolding cell_of scalar_of
null_row-Fits = cons none (cons (some "Bo") nil)

null_plan-Ready :
    Ready null_plan two_kinds two_kinds (0 ∷ []) (0 ∷ []) (null_row ∷ []) (null_row ∷ [])
unfolding join_keys kept contains_index
null_plan-Ready = record {
  keys = refl;
  left_stream = ok null_batch ∷ [];
  left_runs = refl;
  left_rows = StreamRows.cons read_null StreamRows.nil refl;
  left_typed = (refl, (refl, tt));
  left_fits = (null_row-Fits, tt);
  left_in_range = omega arith;
  right_stream = ok null_batch ∷ [];
  right_runs = refl;
  right_rows = StreamRows.cons read_null StreamRows.nil refl;
  right_typed = (refl, (refl, tt));
  right_fits = (null_row-Fits, tt);
  right_in_range = omega arith;
  writes = record {
    typed = (refl, (refl, (refl, tt)));
    some_field = λ e. cc;
    nullable = (refl, (refl, (refl, tt)));
  };
}

execute-null_keys_example :
    (out : Stream) × (execute null_plan 0 ≡ ok out)
    × StreamRows out ((ScalarValue.null ∷ text "Bo" ∷ text "Bo" ∷ []) ∷ [])
unfolding row_key combine_rows kept contains_index
execute-null_keys_example =
    execute-null_keys null_plan two_kinds two_kinds (0 ∷ []) (0 ∷ []) null_row null_row
      (ScalarValue.null ∷ []) null_plan-Ready refl refl refl refl (refl, tt)
