-- ===== src/Expr/Display.antt =====
-- `Display` of expressions, in fdapquery-expr/src/logical_expr.rs and aggregate_function.rs.
use fdapquery.Base.{String, Bool, true, false, List, [], ◌∷◌, decimal, concat, join}
use fdapquery.External.{External}
use fdapquery.Operator
use fdapquery.Scalar
use fdapquery.Expr.{
  Expr, Exprs, column, column_index, literal, date_subtract_interval, date_add_interval, cast,
  binary_expr, alias, scalar_function, aggregate_function, nil, cons, AggregateFunctionKind,
}

-- `AggregateFunctionKind::name`.
kind_name : AggregateFunctionKind → String
kind_name AggregateFunctionKind.min = "MIN"
kind_name AggregateFunctionKind.max = "MAX"
kind_name AggregateFunctionKind.sum = "SUM"
kind_name AggregateFunctionKind.avg = "AVG"
kind_name AggregateFunctionKind.count = "COUNT"

call_text : String → Bool → List String → String
call_text name true args = concat (name ∷ "(DISTINCT " ∷ join ", " args ∷ ")" ∷ [])
call_text name false args = concat (name ∷ "(" ∷ join ", " args ∷ ")" ∷ [])

module _ ⦃ext : External⦄ where
  unfoldable mutual
    unfolding kind_name call_text

    pub to_string : Expr → String
    to_string (column n) = concat ("#" ∷ n ∷ [])
    to_string (column_index i) = concat ("#" ∷ decimal i ∷ [])
    to_string (literal v) = Scalar.to_string v
    to_string (date_subtract_interval d i) = concat (to_string d ∷ " - " ∷ to_string i ∷ [])
    to_string (date_add_interval d i) = concat (to_string d ∷ " + " ∷ to_string i ∷ [])
    to_string (cast e t) =
        concat ("CAST(" ∷ to_string e ∷ " AS " ∷ ext.debug_data_type t ∷ ")" ∷ [])
    to_string (Expr.not e) = concat ("NOT " ∷ to_string e ∷ [])
    to_string (binary_expr l op r) =
        concat (to_string l ∷ " " ∷ Operator.to_string op ∷ " " ∷ to_string r ∷ [])
    to_string (alias e a) = concat (to_string e ∷ " as " ∷ a ∷ [])
    to_string (scalar_function n args t) = concat (n ∷ "([" ∷ join ", " (texts args) ∷ "])" ∷ [])
    to_string (aggregate_function func args distinct fil order nulls) =
        call_text (kind_name func) distinct (texts args)

    texts : Exprs → List String
    texts nil = []
    texts (cons e es) = to_string e ∷ texts es
