-- ===== src/Tests/PlannerTests.antt =====
-- The theorems about rows, keys and the physical planner at concrete inputs.
use fdapquery.Base.{◌≡◌, ◌<◌, ◌↔◌, refl, true, List, [], ◌∷◌, ◌++◌, length, find, inr}
use fdapquery.Base.Names.{contains}
use fdapquery.Errors.{ok, traverse}
use fdapquery.Plan.Scan.{position, derive_schema}
use fdapquery.Expr.Field.{to_field}
use fdapquery.Operator.{Operator}
use fdapquery.PhysicalExpr.{PhysicalExpr, data_type}
use fdapquery.PhysicalPlanner.{
  PhysicalPlan, data_source_exec, filter_exec, projection_exec, physical_schema,
  create_physical_expr, create_physical_plan, excluded_from, plan_scan,
}
use fdapquery.PhysicalPlanner.Types.{create_physical_expr-data_type}
use fdapquery.PhysicalPlanner.Schemas.{ScansMade, physical_schema-create_physical_plan}
use fdapquery.PhysicalPlanner.Joins.{join_fields-Typed, join_fields-right}
use fdapquery.Plan.{JoinType, schema, join_fields}
use fdapquery.Join.HashTable.{kept}
use fdapquery.Rows.{Row, read_rows, create_batch}
use fdapquery.Rows.Write.{Typed}
use fdapquery.Rows.RoundTrip.{read_rows-create_batch}
use fdapquery.RowKey.{row_eq}
use fdapquery.RowKey.Laws.{row_eq_iff}
use fdapquery.Scalar.{ScalarValue}
use fdapquery.Scalar.Arrays.{try_from_array, to_array_of_size, try_from_array-to_array_of_size}
use fdapquery.Tests.Sample.{
  SampleField, employee_first_name, sample, names_in_colorado, in_colorado, employee_schema,
}
use fdapquery.Tests.SampleArrow.{Batch, sample_arrow}
use fdapquery.Tests.JoinTests.{
  sample_hashing, names, field, two_kinds, int, text, int-text-Fits, int_null-Fits,
}

abbrev id_name : List SampleField
id_name = field "id" 4 ∷ field "name" 12 ∷ []

abbrev id_state : List SampleField
id_state = field "id" 4 ∷ field "state" 12 ∷ []

read_rows-create_batch_example :
    (b : Batch) × (create_batch names id_name ≡ ok b) × (read_rows b ≡ ok names)
read_rows-create_batch_example =
    read_rows-create_batch names id_name two_kinds
      (record { typed = (refl, (refl, tt)); some_field = λ e. cc; nullable = (refl, (refl, tt)) })
      (int-text-Fits 1 "Ann", (int_null-Fits 2, tt))

try_from_array-to_array_of_size_example :
    (length (to_array_of_size (text "CO") 3).cells ≡ 3)
    × (2 < 3 → try_from_array (to_array_of_size (text "CO") 3) 2 ≡ ok (text "CO"))
try_from_array-to_array_of_size_example = try_from_array-to_array_of_size (text "CO") 3 2

row_eq_iff_example :
    (row_eq (ScalarValue.null ∷ int 1 ∷ []) (ScalarValue.null ∷ int 2 ∷ []) ≡ true)
    ↔ (◌≡◌ {A = Row} (ScalarValue.null ∷ int 1 ∷ []) (ScalarValue.null ∷ int 2 ∷ []))
row_eq_iff_example = row_eq_iff (ScalarValue.null ∷ int 1 ∷ []) (ScalarValue.null ∷ int 2 ∷ [])

abbrev planned_in_colorado : PhysicalExpr
planned_in_colorado =
    PhysicalExpr.binary_expr (PhysicalExpr.column "state" 1) Operator.eq
      (PhysicalExpr.literal (ScalarValue.utf8 "CO"))

create_in_colorado : create_physical_expr in_colorado (ok employee_schema) ≡ ok planned_in_colorado
unfolding create_physical_expr position
create_in_colorado = refl

create_physical_expr-data_type_example :
    (f : SampleField) × (to_field in_colorado (ok employee_schema) ≡ ok f)
    × (data_type planned_in_colorado employee_schema ≡ ok f.data_type)
create_physical_expr-data_type_example =
    create_physical_expr-data_type in_colorado employee_schema planned_in_colorado
      create_in_colorado

join_fields-Typed_example :
    (fs : List SampleField) × (join_fields JoinType.left ("id" ∷ []) id_name id_state ≡ ok fs)
    × Typed fs (two_kinds ++ kept (excluded_from ("id" ∷ []) 0 id_state) 0 two_kinds)
join_fields-Typed_example =
    join_fields-Typed ("id" ∷ []) id_name id_state two_kinds two_kinds (refl, (refl, tt))
      (refl, (refl, tt)) JoinType.left (inr refl)

join_fields-right_example :
    (fs : List SampleField) × (join_fields JoinType.right ("id" ∷ []) id_name id_state ≡ ok fs)
    × ¬ Typed fs (two_kinds ++ kept (excluded_from ("id" ∷ []) 0 id_state) 0 two_kinds)
unfolding contains
join_fields-right_example =
    join_fields-right ("id" ∷ []) (field "id" 4) (field "name" 12) [] id_state two_kinds two_kinds
      (refl, (refl, tt)) refl refl λ e. cc

abbrev planned_names : PhysicalPlan
planned_names =
    projection_exec (PhysicalExpr.column "first_name" 2 ∷ [])
      (filter_exec planned_in_colorado (data_source_exec employee_schema))
      (employee_first_name ∷ [])

create_planned_names : create_physical_plan names_in_colorado ≡ ok planned_names
unfolding create_physical_plan create_physical_expr position plan_scan schema to_field traverse find
create_planned_names = refl

names-ScansMade : ScansMade names_in_colorado
unfolding derive_schema
names-ScansMade = refl

physical_schema-create_physical_plan_example :
    schema names_in_colorado ≡ ok (physical_schema planned_names)
physical_schema-create_physical_plan_example =
    physical_schema-create_physical_plan names_in_colorado planned_names names-ScansMade
      create_planned_names
