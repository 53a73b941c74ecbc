-- ===== src/PhysicalExpr.antt =====
-- fdapquery-physical-expr/src/column_expression.rs, expressions.rs, cast_expression.rs,
-- date_expression.rs, binary_expression.rs and the aggregates' files: physical expressions, their
-- types over an input schema and their texts.
use fdapquery.Base.{
  ℕ, String, ◌||◌, none, some, [], ◌∷◌, concat, decimal, get_elem?, ltb, if◌then◌else◌,
}
use fdapquery.External.{External}
use fdapquery.Errors.{Outcome, ok, panic}
use fdapquery.Operator
use fdapquery.Operator.{Operator, is_comparison_operator, is_logic_operator, precedence}
use fdapquery.Scalar
use fdapquery.Scalar.{ScalarValue}

module _ ⦃ext : External⦄ where
  pub data PhysicalExpr : Type 0 where
    literal : ScalarValue → PhysicalExpr
    date_subtract_interval_expr date_add_interval_expr :
        (date interval : PhysicalExpr) → PhysicalExpr
    column : (name : String) (index : ℕ) → PhysicalExpr
    cast_expr : PhysicalExpr → ext.DataType → PhysicalExpr
    binary_expr : PhysicalExpr → Operator → PhysicalExpr → PhysicalExpr

  pub data AggregateExpr : Type 0 where
    max_expr min_expr sum_expr avg_expr count_expr : PhysicalExpr → AggregateExpr

  -- `PhysicalExpr::data_type`. An index that is out of range panics.
  unfoldable pub data_type : PhysicalExpr → ext.Schema → Outcome ext.DataType
  data_type (literal v) schema = ok (Scalar.data_type v)
  data_type (date_subtract_interval_expr d i) schema = ok ext.date32
  data_type (date_add_interval_expr d i) schema = ok ext.date32
  data_type (column name index) schema = elim (get_elem? (ext.fields schema) index) [
    | none ↦ panic "index out of bounds"
    | some f ↦ ok (ext.data_type f)
  ]
  data_type (cast_expr e t) schema = ok t
  data_type (binary_expr l op r) schema =
      let left = data_type l schema in
      if is_comparison_operator op || is_logic_operator op then ok ext.boolean else left

  -- An operand that is itself a binary expression of lower precedence stands in parentheses.
  write_child : PhysicalExpr → (text : String) → (parent_op : Operator) → String
  write_child (binary_expr l op r) text parent_op =
      if ltb (precedence op) (precedence parent_op) then concat ("(" ∷ text ∷ ")" ∷ []) else text
  write_child _ text parent_op = text

  -- `Display`.
  unfoldable pub to_string : PhysicalExpr → String
  unfolding write_child
  to_string (literal v) = Scalar.to_string v
  to_string (date_subtract_interval_expr d i) = concat (to_string d ∷ " - " ∷ to_string i ∷ [])
  to_string (date_add_interval_expr d i) = concat (to_string d ∷ " + " ∷ to_string i ∷ [])
  to_string (column name index) = concat (name ∷ "@" ∷ decimal index ∷ [])
  to_string (cast_expr e t) =
      concat ("CAST(" ∷ to_string e ∷ " AS " ∷ ext.display_data_type t ∷ ")" ∷ [])
  to_string (binary_expr l op r) = concat (
      write_child l (to_string l) op
      ∷ " "
      ∷ Operator.to_string op
      ∷ " "
      ∷ write_child r (to_string r) op
      ∷ [])

  unfoldable pub aggregate_text : AggregateExpr → String
  aggregate_text (max_expr e) = concat ("MAX(" ∷ to_string e ∷ ")" ∷ [])
  aggregate_text (min_expr e) = concat ("MIN(" ∷ to_string e ∷ ")" ∷ [])
  aggregate_text (sum_expr e) = concat ("SUM(" ∷ to_string e ∷ ")" ∷ [])
  aggregate_text (avg_expr e) = concat ("AVG(" ∷ to_string e ∷ ")" ∷ [])
  aggregate_text (count_expr e) = concat ("COUNT(" ∷ to_string e ∷ ")" ∷ [])
