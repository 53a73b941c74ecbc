-- ===== src/Tests/Sample.antt =====
-- A concrete instance of what the program takes from other crates, and an employee table.
use fdapquery.Base.{
  ℕ, String, ◌≡◌, refl, Bool, true, Option, none, some, List, [], ◌∷◌, ◌⊎◌, inl, inr,
}
use fdapquery.External.{External, pick}
use fdapquery.Scalar.{ScalarValue}
use fdapquery.Expr.{Expr, column, literal, binary_expr}
use fdapquery.Operator.{Operator}
use fdapquery.Plan.{LogicalPlan, table_scan, filter, projection}
use fdapquery.Plan.Scan.{TableSource, TableScan}

pub record SampleField : Type 0 where
  pub name : String
  pub data_type : ℕ
  pub nullable : Bool

projected : Option (List SampleField) → Unit {0} ⊎ List SampleField
projected none = inl tt
projected (some fs) = inr fs

unfoldable pub project_fields : List SampleField → List ℕ → Unit {0} ⊎ List SampleField
unfolding projected
project_fields s is = projected (pick is s)

pub project_fields_lem :
    (s : List SampleField) (is : List ℕ) (fs : List SampleField)
    → pick is s ≡ some fs
    → (t : List SampleField) × (project_fields s is ≡ inr t) × (t ≡ fs)
unfolding project_fields
project_fields_lem s is fs h = (fs, rw h refl, refl)

instance abbrev pub sample : External
sample = record {
  DataType = ℕ;
  null = 0;
  boolean = 1;
  int8 = 2;
  int16 = 3;
  int32 = 4;
  int64 = 5;
  uint8 = 6;
  uint16 = 7;
  uint32 = 8;
  uint64 = 9;
  float32 = 10;
  float64 = 11;
  utf8 = 12;
  binary = 13;
  date32 = 14;
  debug_data_type = λ t. "type";
  display_data_type = λ t. "type";
  Field = SampleField;
  new_field = λ n t b. record { name = n; data_type = t; nullable = b };
  name = λ f. f.name;
  data_type = λ f. f.data_type;
  Schema = List SampleField;
  new_schema = λ fs. fs;
  fields = λ s. s;
  ArrowError = Unit;
  project = project_fields;
  ParquetError = Unit;
  IoError = Unit;
  OtherError = Unit;
  F32 = ℕ;
  F64 = ℕ;
  display_f32 = λ x. "float";
  display_f64 = λ x. "float";
  display_date = λ d. none;
  debug_texts = λ names. "names";
  name-new_field = λ n t b. refl;
  data_type-new_field = λ n t b. refl;
  fields-new_schema = λ fs. refl;
  fields-project = project_fields_lem;
}

abbrev pub text_field : String → SampleField
text_field n = record { name = n; data_type = 12; nullable = true }

abbrev pub employee_schema : List SampleField
employee_schema = text_field "id" ∷ text_field "state" ∷ text_field "first_name" ∷ []

abbrev pub employee_first_name : SampleField
employee_first_name = text_field "first_name"

abbrev pub employee_source : TableSource
employee_source = record { schema = employee_schema }

abbrev pub employee : TableScan
employee = record {
  path = "employee";
  data_source = employee_source;
  projection = [];
  schema = employee_schema;
}

abbrev pub in_colorado : Expr
in_colorado = binary_expr (column "state") Operator.eq (literal (ScalarValue.utf8 "CO"))

abbrev pub names_in_colorado : LogicalPlan
names_in_colorado = projection (filter (table_scan employee) in_colorado) (column "first_name" ∷ [])
