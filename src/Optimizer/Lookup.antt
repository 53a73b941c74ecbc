-- ===== src/Optimizer/Lookup.antt =====
-- The schema of the plan that projection push-down gives
-- (fdapquery-optimizer/src/projection_push_down_rule.rs).
use fdapquery.Base.{
  String, ◌≡◌, refl, sym, ap, subst, inl, inr, ◌∙◌, List, [], ◌∷◌, All, is_empty, Bool-cases,
}
use fdapquery.Base.Names.{insert, Subset, Subset-refl, Subset-trans, Subset-insert, Subset-extend}
use fdapquery.External.{External}
use fdapquery.Errors.{ok, bind-eq-ok, ok-injective}
use fdapquery.Expr.{Expr}
use fdapquery.Plan.{
  LogicalPlan, table_scan, projection, filter, aggregate, join, limit, schema, expr_fields,
  projection_schema, aggregate_schema, join_schema,
}
use fdapquery.Optimizer.{request_all, insert_keys, push_down, try_optimize, unwrap_or, optimize}
use fdapquery.Optimizer.Columns.{
  Agree, Agree-Subset, Agree-refl, ByName, Subset-extract_columns, Subset-extract_columns_list,
  Subset-extract_aggregates,
}
use fdapquery.Optimizer.Fields.{expr_fields-extract_columns_list, expr_fields-extract_aggregates}
use fdapquery.Optimizer.Scans.{push_down_scan_total}
use fdapquery.Optimizer.Joins.{Agree-join_schema}

module _ ⦃ext : External⦄ where
  abbrev pub HasSchema : LogicalPlan → Type 0
  HasSchema p = (s : ext.Schema) × (schema p ≡ ok s)

  -- Each scan has the schema of its whole source, as `TableScan::new` gives it for an empty
  -- projection; the inputs of projections and aggregates have schemas; and no column that an output
  -- field depends on is named by its index.
  abbrev pub IsPlain : LogicalPlan → Type 0
  IsPlain (table_scan s) = s.schema ≡ s.data_source.schema
  IsPlain (projection input exprs) = IsPlain input × HasSchema input × All ByName exprs
  IsPlain (filter input e) = IsPlain input
  IsPlain (aggregate input group aggs) =
      IsPlain input × HasSchema input × All ByName group × All ByName aggs
  IsPlain (join l r join_type on) = IsPlain l × IsPlain r
  IsPlain (limit input n) = IsPlain input

  -- The output fields are those of a projection or of an aggregate.
  abbrev pub IsCover : LogicalPlan → Type 0
  IsCover (projection input exprs) = Unit
  IsCover (aggregate input group aggs) = Unit
  IsCover (filter input e) = IsCover input
  IsCover (limit input n) = IsCover input
  IsCover _ = ⊥

  -- `t` is an output schema of `p` that agrees with `s` on the names.
  abbrev pub Preserves : List String → ext.Schema → LogicalPlan → Type 0
  Preserves names s p = (t : ext.Schema) × (schema p ≡ ok t) × Agree names s t

  projection_schema-keeps :
      (exprs : List Expr) (s t : ext.Schema) {u : ext.Schema}
      → ((fs : List ext.Field)
          → expr_fields exprs (ok s) ≡ ok fs
          → expr_fields exprs (ok t) ≡ ok fs)
      → projection_schema exprs (ok s) ≡ ok u
      → projection_schema exprs (ok t) ≡ ok u
  unfolding projection_schema
  projection_schema-keeps exprs s t keeps h =
      let (fs, p, q) = bind-eq-ok (expr_fields exprs (ok s)) _ h in rw (keeps fs p) q

  aggregate_schema-keeps :
      (group aggs : List Expr) (s t : ext.Schema) {u : ext.Schema}
      → ((fs : List ext.Field)
          → expr_fields group (ok s) ≡ ok fs
          → expr_fields group (ok t) ≡ ok fs)
      → ((fs : List ext.Field) → expr_fields aggs (ok s) ≡ ok fs → expr_fields aggs (ok t) ≡ ok fs)
      → aggregate_schema group aggs (ok s) ≡ ok u
      → aggregate_schema group aggs (ok t) ≡ ok u
  unfolding aggregate_schema
  aggregate_schema-keeps group aggs s t keep_group keep_aggs h =
      let (fs, p, q) = bind-eq-ok (expr_fields group (ok s)) _ h in
      let (gs, p', q') = bind-eq-ok (expr_fields aggs (ok s)) _ q in
      rw (keep_group fs p, keep_aggs gs p') q'

  Subset-insert_keys :
      (on : List (String × String)) (accum : List String) → Subset accum (insert_keys on accum)
  unfolding insert_keys
  Subset-insert_keys [] accum = Subset-refl accum
  Subset-insert_keys ((l, r) ∷ on) accum =
      Subset-trans (Subset-trans (Subset-insert l accum) (Subset-insert r (insert l accum)))
        (Subset-insert_keys on (insert r (insert l accum)))

  Subset-request_all :
      (l r : ext.Schema) (accum : List String) {accum' : List String}
      → request_all (ok l) (ok r) accum ≡ ok accum'
      → Subset accum accum'
  unfolding request_all
  Subset-request_all l r accum {accum'} h = elim (Bool-cases (is_empty accum)) [
    | inl e ↦
        subst (Subset accum) (ok-injective (rw e at h))
          (Subset-trans (Subset-extend _ _) (Subset-extend _ _))
    | inr e ↦ subst (Subset accum) (ok-injective (rw e at h)) (Subset-refl accum)
  ]

  -- What a rewriting `r` keeps: for the requested names, and under `cover` for the whole schema.
  abbrev Pushed : List String → ext.Schema → Type 0 → LogicalPlan × List String → Type 0
  Pushed accum s cover r = Subset accum r.1 × Preserves accum s r.0 × (cover → schema r.0 ≡ ok s)

  -- What holds of an input, with more requested, holds of an operator with the same schema.
  Pushed-above :
      {accum accum' : List String} {s : ext.Schema} {cover : Type 0} (q : LogicalPlan)
      (r : LogicalPlan × List String)
      → Subset accum accum'
      → schema q ≡ schema r.0
      → Pushed accum' s cover r
      → Pushed accum s cover (q, r.1)
  Pushed-above q r sub e (grown, (t, f, agree), exact) =
      (Subset-trans sub grown, (t, e ∙ f, Agree-Subset sub agree), λ c. e ∙ exact c)

  -- An operator whose schema is unchanged, whatever it covers.
  Pushed-exact :
      {accum accum' : List String} {s : ext.Schema} {cover : Type 0} (q : LogicalPlan)
      → Subset accum accum'
      → schema q ≡ ok s
      → Pushed accum s cover (q, accum')
  Pushed-exact {accum} {s = s} q sub e = (sub, (s, e, Agree-refl accum s), λ c. e)

  push_down_lem :
      (p : LogicalPlan) (accum : List String) {r : LogicalPlan × List String} (s : ext.Schema)
      → IsPlain p
      → push_down p accum ≡ ok r
      → schema p ≡ ok s
      → Pushed accum s (IsCover p) r
  unfolding push_down schema join_schema
  push_down_lem (table_scan sc) accum s plain h e =
      let (scan, p, _, agree) = push_down_scan_total sc accum in
      subst (Pushed accum s ⊥) (ok-injective (rw p at h)) (
        Subset-refl accum,
        (
          scan.schema,
          refl,
          subst (λ x. Agree accum x scan.schema) (sym plain ∙ ok-injective e) agree,
        ),
        λ c. absurd c,
      )
  push_down_lem (filter input ex) accum s plain h e =
      let (mid, p, h') = bind-eq-ok _ _ h in
      let (pushed, p', h'') = bind-eq-ok (push_down input mid) _ h' in
      subst (Pushed accum s (IsCover input)) (ok-injective h'') (
        Pushed-above (filter pushed.0 ex) pushed (Subset-extract_columns ex (schema input) accum p)
          refl (push_down_lem input mid s plain p' e))
  push_down_lem (limit input n) accum s plain h e =
      let (pushed, p, h') = bind-eq-ok (push_down input accum) _ h in
      subst (Pushed accum s (IsCover input)) (ok-injective h') (
        Pushed-above (limit pushed.0 n) pushed (Subset-refl accum) refl
          (push_down_lem input accum s plain p e))
  push_down_lem (projection input exprs) accum s (plain, (s', d), by) h e =
      let (mid, p, h') = bind-eq-ok _ _ h in
      let (pushed, p', h'') = bind-eq-ok (push_down input mid) _ h' in
      let (grown, (t, f, agree), _) = push_down_lem input mid s' plain p' d in
      subst (Pushed accum s Unit) (ok-injective h'') (
        Pushed-exact (projection pushed.0 exprs)
          (Subset-trans (Subset-extract_columns_list exprs (schema input) accum p) grown)
          (rw f (
            projection_schema-keeps exprs s' t
              (λ fs.
                expr_fields-extract_columns_list agree exprs accum by (rw d at p) (Subset-refl mid)
                  fs)
              (rw d at e))))
  push_down_lem (aggregate input group aggs) accum s (plain, (s', d), by_group, by_aggs) h e =
      let (mid, p, h') = bind-eq-ok _ _ h in
      let (mid', q, h'') = bind-eq-ok _ _ h' in
      let (pushed, p', h3) = bind-eq-ok (push_down input mid') _ h'' in
      let (grown, (t, f, agree), _) = push_down_lem input mid' s' plain p' d in
      let grown' = Subset-extract_aggregates aggs (schema input) mid q in
      subst (Pushed accum s Unit) (ok-injective h3) (
        Pushed-exact (aggregate pushed.0 group aggs)
          (Subset-trans (Subset-extract_columns_list group (schema input) accum p)
            (Subset-trans grown' grown))
          (rw f (
            aggregate_schema-keeps group aggs s' t
              (λ fs.
                expr_fields-extract_columns_list agree group accum by_group (rw d at p) grown' fs)
              (λ fs.
                expr_fields-extract_aggregates agree aggs mid by_aggs (rw d at q) (Subset-refl mid')
                  fs)
              (rw d at e))))
  push_down_lem (join l r jt on) accum s plain h e =
      let (sl, a, e') = bind-eq-ok (schema l) _ e in
      let (sr, b, _) = bind-eq-ok (schema r) _ e' in
      let (mid, p, h') = bind-eq-ok (request_all (schema l) (schema r) accum) _ h in
      let (left, p', h'') = bind-eq-ok (push_down l (insert_keys on mid)) _ h' in
      let (right, p'', h3) = bind-eq-ok (push_down r left.1) _ h'' in
      let (grown_l, (tl, fl, agree_l), _) = push_down_lem l (insert_keys on mid) sl plain.0 p' a in
      let (grown_r, (tr, fr, agree_r), _) = push_down_lem r left.1 sr plain.1 p'' b in
      let sub =
        Subset-trans (Subset-request_all sl sr accum (rw (a, b) at p))
          (Subset-insert_keys on mid) in
      let (t, f, agree) =
        Agree-join_schema on jt (Agree-Subset sub agree_l)
          (Agree-Subset (Subset-trans sub grown_l) agree_r) (rw (a, b) at e) in
      subst (Pushed accum s ⊥) (ok-injective h3)
        (Subset-trans sub (Subset-trans grown_l grown_r), (t, rw (fl, fr) f, agree), λ c. absurd c)

  -- Push-down with any set of requested columns, on a plain plan with a schema: the rewritten plan
  -- has a schema that gives every requested name the field that the plan's schema gives it, and the
  -- set that is handed on has every name requested.
  pub push_down-Preserves :
      (p q : LogicalPlan) (accum accum' : List String) (s : ext.Schema)
      → IsPlain p
      → schema p ≡ ok s
      → push_down p accum ≡ ok (q, accum')
      → Preserves accum s q × Subset accum accum'
  push_down-Preserves p q accum accum' s plain e h =
      let (grown, kept, _) = push_down_lem p accum s plain h e in (kept, grown)

  -- The optimizer keeps the output schema: a plain plan whose output fields are those
  -- of a projection or an aggregate has, optimized, the very same schema.
  pub schema-optimize :
      (p q : LogicalPlan) (s : ext.Schema)
      → IsPlain p
      → IsCover p
      → schema p ≡ ok s
      → optimize p ≡ ok q
      → schema q ≡ ok s
  unfolding optimize
  schema-optimize p q s plain cover e h =
      let (rewritten, a, b) = bind-eq-ok (try_optimize p) _ h in
      let (pushed, c, d) = bind-eq-ok (push_down p []) _ a in
      let same = ap (λ o. unwrap_or o p) (ok-injective d) ∙ ok-injective b in
      subst (λ x. schema x ≡ ok s) same ((push_down_lem p [] s plain c e).2 cover)
