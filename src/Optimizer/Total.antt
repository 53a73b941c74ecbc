-- ===== src/Optimizer/Total.antt =====
-- Where push-down gives an answer (fdapquery-optimizer/src/optimizer.rs,
-- projection_push_down_rule.rs).
use fdapquery.Base.{String, ◌≡◌, refl, inl, inr, List, [], ◌∷◌, map, All, is_empty, Bool-cases}
use fdapquery.Base.Names.{extend}
use fdapquery.External.{External}
use fdapquery.Errors.{Outcome, ok}
use fdapquery.Expr.{
  Expr, column, literal, date_subtract_interval, date_add_interval, cast, binary_expr, alias,
  aggregate_function, to_list,
}
use fdapquery.Plan.{LogicalPlan, table_scan, projection, filter, aggregate, join, limit, schema}
use fdapquery.Optimizer.{
  extract_columns, extract_columns_list, extract_aggregates, aggregate_args, request_all,
  insert_keys, push_down, optimize,
}
use fdapquery.Optimizer.Scans.{push_down_scan_total}
use fdapquery.Optimizer.Lookup.{HasSchema, IsPlain, IsCover, schema-optimize}

module _ ⦃ext : External⦄ where
  -- The expressions whose columns can be extracted, apart from columns by index.
  abbrev pub Supported : Expr → Type 0
  Supported (column n) = Unit
  Supported (literal v) = Unit
  Supported (date_subtract_interval d i) = Supported d × Supported i
  Supported (date_add_interval d i) = Supported d × Supported i
  Supported (cast e t) = Supported e
  Supported (alias e a) = Supported e
  Supported (binary_expr l op r) = Supported l × Supported r
  Supported _ = ⊥

  -- An aggregate over such expressions.
  abbrev pub SupportedAggregate : Expr → Type 0
  SupportedAggregate (aggregate_function func args distinct fil order nulls) =
      All Supported (to_list args)
  SupportedAggregate _ = ⊥

  abbrev pub IsSupported : LogicalPlan → Type 0
  IsSupported (table_scan s) = Unit
  IsSupported (projection input exprs) = IsSupported input × All Supported exprs
  IsSupported (filter input e) = IsSupported input × Supported e
  IsSupported (aggregate input group aggs) =
      IsSupported input × All Supported group × All SupportedAggregate aggs
  IsSupported (join l r join_type on) = IsSupported l × IsSupported r × HasSchema l × HasSchema r
  IsSupported (limit input n) = IsSupported input

  abbrev Total : {A : Type 0} → Outcome A → Type 0
  Total {A} m = (a : A) × (m ≡ ok a)

  extract_columns-Total :
      (e : Expr) (input : Outcome ext.Schema) (accum : List String)
      → Supported e
      → Total (extract_columns e input accum)
  unfolding extract_columns
  extract_columns-Total (column n) input accum h = (_, refl)
  extract_columns-Total (literal v) input accum h = (_, refl)
  extract_columns-Total (cast e t) input accum h = extract_columns-Total e input accum h
  extract_columns-Total (alias e a) input accum h = extract_columns-Total e input accum h
  extract_columns-Total (binary_expr l op r) input accum h =
      let (a, p) = extract_columns-Total l input accum h.0 in
      let (b, q) = extract_columns-Total r input a h.1 in (b, rw p q)
  extract_columns-Total (date_subtract_interval d i) input accum h =
      let (a, p) = extract_columns-Total d input accum h.0 in
      let (b, q) = extract_columns-Total i input a h.1 in (b, rw p q)
  extract_columns-Total (date_add_interval d i) input accum h =
      let (a, p) = extract_columns-Total d input accum h.0 in
      let (b, q) = extract_columns-Total i input a h.1 in (b, rw p q)
  extract_columns-Total _ input accum h = absurd h

  extract_columns_list-Total :
      (es : List Expr) (input : Outcome ext.Schema) (accum : List String)
      → All Supported es
      → Total (extract_columns_list es input accum)
  unfolding extract_columns_list
  extract_columns_list-Total [] input accum h = (accum, refl)
  extract_columns_list-Total (e ∷ es) input accum h =
      let (a, p) = extract_columns-Total e input accum h.0 in
      let (b, q) = extract_columns_list-Total es input a h.1 in (b, rw p q)

  aggregate_args_total :
      (e : Expr)
      → SupportedAggregate e
      → (args : List Expr) × (aggregate_args e ≡ ok args) × All Supported args
  unfolding aggregate_args
  aggregate_args_total (aggregate_function func args distinct fil order nulls) h =
      (to_list args, refl, h)
  aggregate_args_total _ h = absurd h

  extract_aggregates-Total :
      (es : List Expr) (input : Outcome ext.Schema) (accum : List String)
      → All SupportedAggregate es
      → Total (extract_aggregates es input accum)
  unfolding extract_aggregates
  extract_aggregates-Total [] input accum h = (accum, refl)
  extract_aggregates-Total (e ∷ es) input accum h =
      let (args, p, s) = aggregate_args_total e h.0 in
      let (a, q) = extract_columns_list-Total args input accum s in
      let (b, r) = extract_aggregates-Total es input a h.1 in (b, rw (p, q) r)

  request_all-Total :
      (l r : LogicalPlan) (accum : List String)
      → HasSchema l
      → HasSchema r
      → Total (request_all (schema l) (schema r) accum)
  unfolding request_all
  request_all-Total l r accum (sl, p) (sr, q) = elim (Bool-cases (is_empty accum)) [
    | inl e ↦ (
      extend (map ext.name (ext.fields sr)) (extend (map ext.name (ext.fields sl)) accum),
      rw (e, p, q),
    )
    | inr e ↦ (accum, rw e)
  ]

  push_down-Total :
      (p : LogicalPlan) (accum : List String) → IsSupported p → Total (push_down p accum)
  unfolding push_down
  push_down-Total (table_scan s) accum h =
      let (scan, p, _, _) = push_down_scan_total s accum in ((table_scan scan, accum), rw p)
  push_down-Total (projection input exprs) accum h =
      let (a, p) = extract_columns_list-Total exprs (schema input) accum h.1 in
      let (b, q) = push_down-Total input a h.0 in ((projection b.0 exprs, b.1), rw (p, q))
  push_down-Total (filter input e) accum h =
      let (a, p) = extract_columns-Total e (schema input) accum h.1 in
      let (b, q) = push_down-Total input a h.0 in ((filter b.0 e, b.1), rw (p, q))
  push_down-Total (aggregate input group aggs) accum h =
      let (a, p) = extract_columns_list-Total group (schema input) accum h.1 in
      let (b, q) = extract_aggregates-Total aggs (schema input) a h.2 in
      let (c, r) = push_down-Total input b h.0 in ((aggregate c.0 group aggs, c.1), rw (p, q, r))
  push_down-Total (join l r join_type on) accum h =
      let (a, p) = request_all-Total l r accum h.2 h.3 in
      let (b, q) = push_down-Total l (insert_keys on a) h.0 in
      let (c, s) = push_down-Total r b.1 h.1 in ((join b.0 c.0 join_type on, c.1), rw (p, q, s))
  push_down-Total (limit input n) accum h =
      let (a, p) = push_down-Total input accum h in ((limit a.0 n, a.1), rw p)

  optimize_answers : (p : LogicalPlan) → IsSupported p → Total (optimize p)
  unfolding optimize
  optimize_answers p h = let (r, a) = push_down-Total p [] h in (r.0, rw a)

  -- On a plan made of supported expressions, whose joins have inputs with schemas, the optimizer
  -- answers with a plan; if the plan is also plain and its output is that of a projection or an
  -- aggregate, the answer has the same schema.
  pub optimize_total :
      (p : LogicalPlan) (s : ext.Schema)
      → IsSupported p
      → IsPlain p
      → IsCover p
      → schema p ≡ ok s
      → (q : LogicalPlan) × (optimize p ≡ ok q) × (schema q ≡ ok s)
  optimize_total p s supported plain cover e =
      let (q, a) = optimize_answers p supported in (q, a, schema-optimize p q s plain cover e a)
