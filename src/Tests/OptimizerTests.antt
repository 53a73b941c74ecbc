-- ===== src/Tests/OptimizerTests.antt =====
-- The optimizer on the employee table, and its theorems at concrete inputs.
use mathlib.Core.List.{Perm}
use fdapquery.Base.{
  String, ◌≡◌, ◌≢◌, refl, List, [], ◌∷◌, is_empty, false, map, concat, join, filter as keep, find,
}
use fdapquery.Base.Names.{contains, insert, Subset}
use fdapquery.External.{pick}
use fdapquery.Errors.{ok, traverse}
use fdapquery.Operator
use fdapquery.Scalar
use fdapquery.Expr.{column, column_index}
use fdapquery.Expr.Display
use fdapquery.Expr.Field.{to_field}
use fdapquery.Plan.{
  LogicalPlan, table_scan, filter, projection, schema, projection_schema, expr_fields,
}
use fdapquery.Plan.Scan.{TableScan, new_scan, derive_schema, position}
use fdapquery.Plan.Display.{format}
use fdapquery.Optimizer.{
  optimize, push_down, push_down_scan, requested, sort, extract_columns, extract_columns_list,
}
use fdapquery.Optimizer.Columns.{Agree}
use fdapquery.Optimizer.Scans.{push_down_scan_total, names_in, names-push_down_scan}
use fdapquery.Optimizer.Sorted.{Ascending}
use fdapquery.Optimizer.Lookup.{schema-optimize, push_down-Preserves, Preserves}
use fdapquery.Optimizer.Total.{optimize_total}
use fdapquery.Optimizer.Narrow.{names-optimize-filter, schema-optimize-column_index}
use fdapquery.Tests.Sample.{
  sample, employee, employee_schema, employee_first_name, in_colorado, names_in_colorado,
  project_fields, text_field,
}

-- The plan and its rewriting, as the source's test `projection_push_down_with_selection` has them.
format_names :
    format names_in_colorado
    ≡ "Projection: #first_name\n\tFilter: #state = CO\n\t\tTableScan: employee; projection=None\n"
unfolding format concat join Display.to_string Operator.to_string Scalar.to_string
format_names = refl

abbrev narrow_scan : TableScan
narrow_scan = record employee {
  projection = "first_name" ∷ "state" ∷ [];
  schema = employee_first_name ∷ text_field "state" ∷ [];
}

abbrev narrow_plan : LogicalPlan
narrow_plan = projection (filter (table_scan narrow_scan) in_colorado) (column "first_name" ∷ [])

abbrev narrow_columns : List String
narrow_columns = "state" ∷ "first_name" ∷ []

push_down_names : push_down names_in_colorado [] ≡ ok (narrow_plan, narrow_columns)
unfolding push_down push_down_scan new_scan derive_schema requested sort extract_columns
    extract_columns_list keep contains insert traverse position project_fields pick
push_down_names = refl

optimize_names : optimize names_in_colorado ≡ ok narrow_plan
unfolding optimize
optimize_names = rw push_down_names

schema_names : schema names_in_colorado ≡ ok (employee_first_name ∷ [])
unfolding schema projection_schema expr_fields to_field find
schema_names = refl

push_down-Preserves_example :
    Preserves [] (employee_first_name ∷ []) narrow_plan × Subset [] narrow_columns
push_down-Preserves_example =
    push_down-Preserves names_in_colorado narrow_plan [] narrow_columns (employee_first_name ∷ [])
      (refl, (employee_schema, unfold schema in refl), (tt, tt)) schema_names push_down_names

schema-optimize_example : schema narrow_plan ≡ ok (employee_first_name ∷ [])
schema-optimize_example =
    schema-optimize names_in_colorado narrow_plan (employee_first_name ∷ [])
      (refl, (employee_schema, unfold schema in refl), (tt, tt)) tt schema_names optimize_names

optimize_total_example :
    (q : LogicalPlan) × (optimize names_in_colorado ≡ ok q)
    × (schema q ≡ ok (employee_first_name ∷ []))
optimize_total_example =
    optimize_total names_in_colorado (employee_first_name ∷ []) ((tt, (tt, tt)), (tt, tt))
      (refl, (employee_schema, unfold schema in refl), (tt, tt)) tt schema_names

push_down_scan_total_example :
    (scan : TableScan) × (push_down_scan employee narrow_columns ≡ ok scan)
    × (scan.projection ≡ requested employee_schema narrow_columns)
    × Agree narrow_columns employee_schema scan.schema
push_down_scan_total_example = push_down_scan_total employee narrow_columns

push_down_scan_names : push_down_scan employee narrow_columns ≡ ok narrow_scan
unfolding push_down_scan new_scan derive_schema requested sort keep contains traverse position
    project_fields pick
push_down_scan_names = refl

some_column : is_empty (names_in employee_schema narrow_columns) ≡ false
unfolding keep contains
some_column = refl

names-push_down_scan_example :
    Perm (map sample.name narrow_scan.schema) (names_in employee_schema narrow_columns)
    × Ascending (map sample.name narrow_scan.schema)
names-push_down_scan_example =
    names-push_down_scan employee narrow_scan narrow_columns some_column push_down_scan_names

extract_condition : extract_columns in_colorado (ok employee_schema) [] ≡ ok ("state" ∷ [])
unfolding extract_columns insert contains
extract_condition = refl

condition_column : is_empty (names_in employee_schema ("state" ∷ [])) ≡ false
unfolding keep contains
condition_column = refl

names-optimize-filter_example :
    (q : LogicalPlan) × (t : sample.Schema) × (optimize (filter (table_scan employee) in_colorado)
      ≡ ok q)
    × (schema q ≡ ok t)
    × Perm (map sample.name t) (names_in employee_schema ("state" ∷ []))
    × Ascending (map sample.name t)
names-optimize-filter_example =
    names-optimize-filter employee in_colorado ("state" ∷ []) extract_condition condition_column

single_column : requested employee_schema ("first_name" ∷ []) ≡ "first_name" ∷ []
unfolding requested sort keep contains
single_column = refl

schema-optimize-column_index_example :
    (q : LogicalPlan) × (optimize (projection (table_scan employee) (column_index 2 ∷ [])) ≡ ok q)
    × ((t : sample.Schema) → schema q ≢ ok t)
schema-optimize-column_index_example =
    schema-optimize-column_index employee employee_first_name 1 refl refl single_column
