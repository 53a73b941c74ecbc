-- ===== src/Expr.antt =====
-- fdapquery-expr/src/logical_expr.rs, expressions.rs, aggregate_function.rs, sort.rs: logical
-- expressions and the functions that build them. A list, an optional expression and a list of sort
-- keys inside an expression are data types of the same block.
pub mod Field
pub mod Display
use fdapquery.Base.{ℕ, String, Bool, true, false, Option, none, List, [], ◌∷◌}
use fdapquery.External.{External}
use fdapquery.Operator.{Operator}
use fdapquery.Scalar.{ScalarValue}

pub data NullTreatment : Type 0 where
  ignore_nulls respect_nulls : NullTreatment

pub data AggregateFunctionKind : Type 0 where
  min max sum avg count : AggregateFunctionKind

module _ ⦃ext : External⦄ where
  -- `aggregate_function func args distinct filter order_by null_treatment` is the struct
  -- `AggregateFunction` with the fields of its `params`.
  mutual
    pub data Expr : Type 0 where
      column : String → Expr
      column_index : ℕ → Expr
      literal : ScalarValue → Expr
      date_subtract_interval date_add_interval : Expr → Expr → Expr
      cast : Expr → ext.DataType → Expr
      not : Expr → Expr
      binary_expr : Expr → Operator → Expr → Expr
      alias : Expr → String → Expr
      scalar_function : String → Exprs → ext.DataType → Expr
      aggregate_function :
          AggregateFunctionKind → Exprs → Bool → MaybeExpr → Sorts → Option NullTreatment → Expr

    pub data Exprs : Type 0 where
      nil : Exprs
      cons : Expr → Exprs → Exprs

    pub data MaybeExpr : Type 0 where
      nothing : MaybeExpr
      just : Expr → MaybeExpr

    -- A key is an expression with the flags `asc` and `nulls_first`.
    pub data Sorts : Type 0 where
      no_sort : Sorts
      sort : Expr → Bool → Bool → Sorts → Sorts

  -- The same sequence as a `List`.
  unfoldable pub to_list : Exprs → List Expr
  to_list nil = []
  to_list (cons e es) = e ∷ to_list es

  binary : Expr → Operator → Expr → Expr
  binary l op r = binary_expr l op r

  unfoldable pub col : String → Expr
  col name = column name

  agg : AggregateFunctionKind → Expr → Bool → Expr
  agg func e distinct = aggregate_function func (cons e nil) distinct nothing no_sort none

  unfoldable pub count_of : Expr → Expr
  unfolding agg
  count_of e = agg AggregateFunctionKind.count e false

  unfoldable pub count_distinct : Expr → Expr
  unfolding agg
  count_distinct e = agg AggregateFunctionKind.count e true
