-- ===== src/Optimizer/Fields.antt =====
-- Output fields over inputs that agree on the names which `extract_columns` collected
-- (fdapquery-optimizer/src/optimizer.rs, fdapquery-expr/src/logical_expr.rs).
use fdapquery.Base.{
  String, ◌≡◌, sym, subst, All, Bool, true, false, ◌||◌, Option, List, [], ◌∷◌, arith, Bool-cases,
  inl, inr,
}
use fdapquery.Base.Names.{contains, Subset, Subset-trans, contains-insert_self}
use fdapquery.External.{External}
use fdapquery.Errors.{ok, bind-eq-ok, ok-injective}
use fdapquery.Operator.{Operator, is_comparison_operator, is_logic_operator}
use fdapquery.Expr.{
  Expr, Exprs, column, column_index, literal, date_subtract_interval, date_add_interval, cast,
  binary_expr, alias, aggregate_function, nil, cons, AggregateFunctionKind, NullTreatment,
  MaybeExpr, Sorts, to_list,
}
use fdapquery.Expr.Field.{to_field}
use fdapquery.Plan.{expr_fields}
use fdapquery.Optimizer.{extract_columns, extract_columns_list, extract_aggregates, aggregate_args}
use fdapquery.Optimizer.Columns.{
  Agree, ByName, Subset-extract_columns, Subset-extract_columns_list, Subset-extract_aggregates,
}

module _ ⦃ext : External⦄ where
  -- Over `t` the expression has the field that it has over `s`, where it has one.
  abbrev pub Keeps : ext.Schema → ext.Schema → Expr → Type 0
  Keeps s t e = (f : ext.Field) → to_field e (ok s) ≡ ok f → to_field e (ok t) ≡ ok f

  module _ {names : List String} {s t : ext.Schema} (agree : Agree names s t) where
    Keeps-column : (n : String) → contains names n ≡ true → Keeps s t (column n)
    unfolding to_field
    Keeps-column n h f e = ground (arith, agree.at n h)

    Keeps-binary :
        (l : Expr) (op : Operator) (r : Expr) → Keeps s t l → Keeps s t (binary_expr l op r)
    unfolding to_field
    Keeps-binary l op r left f k =
        elim (Bool-cases (is_comparison_operator op || is_logic_operator op)) [
          | inl test ↦ rw test (rw test at k)
          | inr test ↦
              let (g, p, q) = bind-eq-ok (to_field l (ok s)) _ (rw test at k) in
              rw (test, left g p) q
        ]

    Keeps-extract_columns :
        (e : Expr) (accum : List String) {accum' : List String}
        → ByName e
        → extract_columns e (ok s) accum ≡ ok accum'
        → Subset accum' names
        → Keeps s t e
    unfolding extract_columns to_field
    Keeps-extract_columns (column n) accum by h sub f k =
        Keeps-column n (sub.at n (rw (← ok-injective h) (contains-insert_self n accum))) f k
    Keeps-extract_columns (binary_expr l op r) accum by h sub f k =
        let (mid, p, q) = bind-eq-ok _ (extract_columns r (ok s)) h in
        let left = λ (g : ext.Field).
          Keeps-extract_columns l accum by.0 p
            (Subset-trans (Subset-extract_columns r (ok s) mid q) sub) g in
        Keeps-binary l op r left f k
    Keeps-extract_columns (alias e a) accum by h sub f k =
        let (g, p, q) = bind-eq-ok (to_field e (ok s)) _ k in
        rw (Keeps-extract_columns e accum by h sub g p) q
    Keeps-extract_columns (cast e a) accum by h sub f k =
        let (g, p, q) = bind-eq-ok (to_field e (ok s)) _ k in
        rw (Keeps-extract_columns e accum by h sub g p) q
    Keeps-extract_columns (literal v) accum by h sub f k = k
    Keeps-extract_columns (date_subtract_interval d i) accum by h sub f k = k
    Keeps-extract_columns (date_add_interval d i) accum by h sub f k = k
    Keeps-extract_columns (column_index i) accum by h sub f k = absurd by
    Keeps-extract_columns _ accum by h sub f k = cc

    Keeps-aggregate_function :
        (func : AggregateFunctionKind) (e : Expr) (es : Exprs) (distinct : Bool) (fil : MaybeExpr)
        (order : Sorts) (nulls : Option NullTreatment)
        → Keeps s t e
        → Keeps s t (aggregate_function func (cons e es) distinct fil order nulls)
    unfolding to_field
    Keeps-aggregate_function AggregateFunctionKind.count e es true fil order nulls keeps f k = k
    Keeps-aggregate_function AggregateFunctionKind.count e es false fil order nulls keeps f k = k
    Keeps-aggregate_function _ e es distinct fil order nulls keeps f k =
        let (g, p, q) = bind-eq-ok (to_field e (ok s)) _ k in rw (keeps g p) q

    -- One aggregate of a plan, after its arguments were collected.
    Keeps-extract_aggregate :
        (e : Expr) (accum : List String) {args : List Expr} {accum' : List String}
        → ByName e
        → aggregate_args e ≡ ok args
        → extract_columns_list args (ok s) accum ≡ ok accum'
        → Subset accum' names
        → Keeps s t e
    unfolding aggregate_args to_field extract_columns_list to_list
    Keeps-extract_aggregate (aggregate_function func nil distinct fil order nulls) accum by a h sub
          f k =
        cc
    Keeps-extract_aggregate (aggregate_function func (cons e es) distinct fil order nulls) accum
          {accum' = a'} by a h sub f k =
        let h' =
          subst (λ x. extract_columns_list x (ok s) accum ≡ ok a') (sym (ok-injective a)) h in
        let (mid, p, q) = bind-eq-ok _ (extract_columns_list (to_list es) (ok s)) h' in
        Keeps-aggregate_function func e es distinct fil order nulls
          (Keeps-extract_columns e accum by.0 p
            (Subset-trans (Subset-extract_columns_list (to_list es) (ok s) mid q) sub))
          f k
    Keeps-extract_aggregate (column n) accum by a h sub f k = cc
    Keeps-extract_aggregate _ accum by a h sub f k = cc

    expr_fields-cons :
        (e : Expr) (es : List Expr)
        → Keeps s t e
        → ((fs : List ext.Field) → expr_fields es (ok s) ≡ ok fs → expr_fields es (ok t) ≡ ok fs)
        → (fs : List ext.Field) → expr_fields (e ∷ es) (ok s) ≡ ok fs
        → expr_fields (e ∷ es) (ok t) ≡ ok fs
    unfolding expr_fields
    expr_fields-cons e es keep_e keep_es fs k =
        let (g, p, q) = bind-eq-ok (to_field e (ok s)) _ k in
        let (gs, p', q') = bind-eq-ok (expr_fields es (ok s)) _ q in
        rw (keep_e g p, keep_es gs p') q'

    pub expr_fields-extract_columns_list :
        (es : List Expr) (accum : List String) {accum' : List String}
        → All ByName es
        → extract_columns_list es (ok s) accum ≡ ok accum'
        → Subset accum' names
        → (fs : List ext.Field) → expr_fields es (ok s) ≡ ok fs
        → expr_fields es (ok t) ≡ ok fs
    unfolding extract_columns_list
    expr_fields-extract_columns_list [] accum by h sub fs k = unfold expr_fields in k
    expr_fields-extract_columns_list (e ∷ es) accum by h sub fs k =
        let (mid, p, q) = bind-eq-ok _ (extract_columns_list es (ok s)) h in
        expr_fields-cons e es
          (Keeps-extract_columns e accum by.0 p
            (Subset-trans (Subset-extract_columns_list es (ok s) mid q) sub))
          (expr_fields-extract_columns_list es mid by.1 q sub) fs k

    pub expr_fields-extract_aggregates :
        (es : List Expr) (accum : List String) {accum' : List String}
        → All ByName es
        → extract_aggregates es (ok s) accum ≡ ok accum'
        → Subset accum' names
        → (fs : List ext.Field) → expr_fields es (ok s) ≡ ok fs
        → expr_fields es (ok t) ≡ ok fs
    unfolding extract_aggregates
    expr_fields-extract_aggregates [] accum by h sub fs k = unfold expr_fields in k
    expr_fields-extract_aggregates (e ∷ es) accum by h sub fs k =
        let (args, p, q) = bind-eq-ok (aggregate_args e) _ h in
        let (mid, p', q') = bind-eq-ok _ (extract_aggregates es (ok s)) q in
        expr_fields-cons e es
          (Keeps-extract_aggregate e accum by.0 p p'
            (Subset-trans (Subset-extract_aggregates es (ok s) mid q') sub))
          (expr_fields-extract_aggregates es mid by.1 q' sub) fs k
