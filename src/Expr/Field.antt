-- ===== src/Expr/Field.antt =====
-- `Expr::to_field` of fdapquery-expr/src/logical_expr.rs: the output field of an expression over an
-- input plan. Of the plan it reads only `schema()`, which is the argument here.
use fdapquery.Base.{
  ℕ, String, Bool, true, ◌||◌, Option, none, some, [], ◌∷◌, map, text_eq, if◌then◌else◌, find,
  get_elem?, length, decimal, concat,
}
use fdapquery.External.{External}
use fdapquery.Errors.{Outcome, ok, err, schema_error, internal, ◌>>=◌, ok_or}
use fdapquery.Operator.{Operator, is_comparison_operator, is_logic_operator}
use fdapquery.Scalar
use fdapquery.Expr.{
  Expr, Exprs, column, column_index, literal, date_subtract_interval, date_add_interval, cast,
  binary_expr, alias, scalar_function, aggregate_function, nil, cons, AggregateFunctionKind,
}

-- The short name of an operator, as the name of its output field.
binary_field_name : Operator → String
binary_field_name Operator.eq = "eq"
binary_field_name Operator.not_eq = "neq"
binary_field_name Operator.gt = "gt"
binary_field_name Operator.gt_eq = "gteq"
binary_field_name Operator.lt = "lt"
binary_field_name Operator.lt_eq = "lteq"
binary_field_name Operator.and = "and"
binary_field_name Operator.or = "or"
binary_field_name Operator.plus = "add"
binary_field_name Operator.minus = "subtract"
binary_field_name Operator.multiply = "mult"
binary_field_name Operator.divide = "div"
binary_field_name Operator.modulo = "mod"
binary_field_name Operator.is_distinct_from = "is_distinct_from"
binary_field_name Operator.is_not_distinct_from = "is_not_distinct_from"
binary_field_name Operator.like_match = "like"
binary_field_name Operator.i_like_match = "ilike"
binary_field_name Operator.not_like_match = "not_like"
binary_field_name Operator.not_i_like_match = "not_ilike"
binary_field_name Operator.bitwise_and = "bitand"
binary_field_name Operator.bitwise_or = "bitor"
binary_field_name Operator.bitwise_xor = "bitxor"
binary_field_name Operator.bitwise_shift_right = "shr"
binary_field_name Operator.bitwise_shift_left = "shl"
binary_field_name Operator.string_concat = "concat"
binary_field_name Operator.at_arrow = "at_arrow"
binary_field_name Operator.arrow_at = "arrow_at"
binary_field_name Operator.regex_match = "regex_match"
binary_field_name Operator.regex_i_match = "regex_imatch"
binary_field_name Operator.regex_not_match = "regex_not_match"
binary_field_name Operator.regex_not_i_match = "regex_not_imatch"

module _ ⦃ext : External⦄ where
  -- `f.name() == name`.
  abbrev pub has_name : String → ext.Field → Bool
  has_name n f = text_eq (ext.name f) n

  column_field : String → ext.Schema → Outcome ext.Field
  column_field n schema = ok_or (find (has_name n) (ext.fields schema)) (
      schema_error (
        concat (
          "Expr::to_field: no column named '"
          ∷ n
          ∷ "' in "
          ∷ ext.debug_texts (map ext.name (ext.fields schema))
          ∷ [])))

  index_field : ℕ → ext.Schema → Outcome ext.Field
  index_field i schema = ok_or (get_elem? (ext.fields schema) i) (
      internal (
        concat (
          "Expr::to_field: column index "
          ∷ decimal i
          ∷ " out of bounds (schema has "
          ∷ decimal (length (ext.fields schema))
          ∷ " fields)"
          ∷ [])))

  -- `first` is the field of the first argument, `none` where there is no argument.
  aggregate_field : AggregateFunctionKind → Bool → Option (Outcome ext.Field) → Outcome ext.Field
  aggregate_field func distinct none =
      err (internal "Expr::AggregateFunction has no argument expressions")
  aggregate_field AggregateFunctionKind.sum distinct (some first) = do
    f ← first
    ok (ext.new_field "SUM" (ext.data_type f) true)
  aggregate_field AggregateFunctionKind.min distinct (some first) = do
    f ← first
    ok (ext.new_field "MIN" (ext.data_type f) true)
  aggregate_field AggregateFunctionKind.max distinct (some first) = do
    f ← first
    ok (ext.new_field "MAX" (ext.data_type f) true)
  aggregate_field AggregateFunctionKind.avg distinct (some first) = do
    f ← first
    ok (ext.new_field "AVG" (ext.data_type f) true)
  aggregate_field AggregateFunctionKind.count distinct (some first) =
      if distinct
      then ok (ext.new_field "COUNT_DISTINCT" ext.uint32 true)
      else ok (ext.new_field "COUNT" ext.int32 true)

  binary_field : Operator → Outcome ext.Field → Outcome ext.Field
  binary_field op left =
      if is_comparison_operator op || is_logic_operator op
      then ok (ext.new_field (binary_field_name op) ext.boolean true)
      else do f ← left; ok (ext.new_field (binary_field_name op) (ext.data_type f) true)

  unfoldable mutual
    unfolding column_field index_field aggregate_field binary_field binary_field_name

    pub to_field : Expr → Outcome ext.Schema → Outcome ext.Field
    to_field (column n) input = do schema ← input; column_field n schema
    to_field (column_index i) input = do schema ← input; index_field i schema
    to_field (literal v) input =
        ok (ext.new_field (Scalar.to_string v) (Scalar.data_type v) (Scalar.is_null v))
    to_field (date_subtract_interval d i) input = ok (ext.new_field "date_subtract" ext.date32 true)
    to_field (date_add_interval d i) input = ok (ext.new_field "date_add" ext.date32 true)
    to_field (cast e t) input = do f ← to_field e input; ok (ext.new_field (ext.name f) t true)
    to_field (Expr.not e) input = ok (ext.new_field "not" ext.boolean true)
    to_field (binary_expr l op r) input = binary_field op (to_field l input)
    to_field (alias e a) input = do
      f ← to_field e input
      ok (ext.new_field a (ext.data_type f) true)
    to_field (scalar_function n args t) input = ok (ext.new_field n t true)
    to_field (aggregate_function func args distinct fil order nulls) input =
        aggregate_field func distinct (first_field args input)

    first_field : Exprs → Outcome ext.Schema → Option (Outcome ext.Field)
    first_field nil input = none
    first_field (cons e es) input = some (to_field e input)
