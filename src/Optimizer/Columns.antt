-- ===== src/Optimizer/Columns.antt =====
-- What `extract_columns` collects, and the names that output fields depend on
-- (fdapquery-optimizer/src/optimizer.rs).
use fdapquery.Base.{String, ◌≡◌, refl, subst, true, List, [], ◌∷◌, find}
use fdapquery.Base.Names.{contains, insert, Subset, Subset-refl, Subset-trans, Subset-insert}
use fdapquery.External.{External}
use fdapquery.Errors.{Outcome, ok, ◌>>=◌, bind-eq-ok, ok-injective}
use fdapquery.Expr.{
  Expr, Exprs, column, column_index, literal, date_subtract_interval, date_add_interval, cast,
  binary_expr, alias, aggregate_function, nil, cons,
}
use fdapquery.Expr.Field.{has_name}
use fdapquery.Optimizer.{extract_columns, extract_columns_list, extract_aggregates, aggregate_args}

module _ ⦃ext : External⦄ where
  -- Two schemas give the same field for each of the names.
  pub record Agree (names : List String) (s t : ext.Schema) : Type 0 where
    pub at :
        (n : String)
        → contains names n ≡ true
        → find (has_name n) (ext.fields t) ≡ find (has_name n) (ext.fields s)

  pub Agree-Subset : {a b : List String} {s t : ext.Schema} → Subset a b → Agree b s t → Agree a s t
  Agree-Subset sub ag = record { at = λ n h. ag.at n (sub.at n h) }

  pub Agree-refl : (a : List String) (s : ext.Schema) → Agree a s s
  Agree-refl a s = record { at = λ n h. refl }

  -- No operand that the output field depends on is a column by index.
  abbrev mutual
    pub ByName : Expr → Type 0
    ByName (column_index i) = ⊥
    ByName (cast e t) = ByName e
    ByName (alias e a) = ByName e
    ByName (binary_expr l op r) = ByName l × ByName r
    ByName (aggregate_function func args distinct fil order nulls) = ByNames args
    ByName _ = Unit

    pub ByNames : Exprs → Type 0
    ByNames nil = Unit
    ByNames (cons e es) = ByName e × ByNames es

  -- The set grows along two steps.
  Subset-bind :
      {accum accum'' : List String} (m : Outcome (List String))
      (f : List String → Outcome (List String))
      → ((mid : List String) → m ≡ ok mid → Subset accum mid)
      → ((mid : List String) → f mid ≡ ok accum'' → Subset mid accum'')
      → (m >>= f) ≡ ok accum''
      → Subset accum accum''
  Subset-bind m f first second h =
      let (mid, p, q) = bind-eq-ok m f h in Subset-trans (first mid p) (second mid q)

  pub Subset-extract_columns :
      (e : Expr) (input : Outcome ext.Schema) (accum : List String) {accum' : List String}
      → extract_columns e input accum ≡ ok accum'
      → Subset accum accum'
  unfolding extract_columns
  Subset-extract_columns (column n) input accum h =
      subst (Subset accum) (ok-injective h) (Subset-insert n accum)
  Subset-extract_columns (column_index i) (ok s) accum h =
      let (n, p, q) = bind-eq-ok _ (λ m. ok (insert m accum)) h in
      subst (Subset accum) (ok-injective q) (Subset-insert n accum)
  Subset-extract_columns (binary_expr l op r) input accum h =
      Subset-bind _ (extract_columns r input) (λ mid. Subset-extract_columns l input accum)
        (λ mid. Subset-extract_columns r input mid) h
  Subset-extract_columns (date_subtract_interval d i) input accum h =
      Subset-bind _ (extract_columns i input) (λ mid. Subset-extract_columns d input accum)
        (λ mid. Subset-extract_columns i input mid) h
  Subset-extract_columns (date_add_interval d i) input accum h =
      Subset-bind _ (extract_columns i input) (λ mid. Subset-extract_columns d input accum)
        (λ mid. Subset-extract_columns i input mid) h
  Subset-extract_columns (alias e a) input accum h = Subset-extract_columns e input accum h
  Subset-extract_columns (cast e t) input accum h = Subset-extract_columns e input accum h
  Subset-extract_columns (literal v) input accum h =
      subst (Subset accum) (ok-injective h) (Subset-refl accum)
  Subset-extract_columns _ input accum h = cc

  pub Subset-extract_columns_list :
      (es : List Expr) (input : Outcome ext.Schema) (accum : List String) {accum' : List String}
      → extract_columns_list es input accum ≡ ok accum'
      → Subset accum accum'
  unfolding extract_columns_list
  Subset-extract_columns_list [] input accum h =
      subst (Subset accum) (ok-injective h) (Subset-refl accum)
  Subset-extract_columns_list (e ∷ es) input accum h =
      Subset-bind _ (extract_columns_list es input) (λ mid. Subset-extract_columns e input accum)
        (λ mid. Subset-extract_columns_list es input mid) h

  pub Subset-extract_aggregates :
      (es : List Expr) (input : Outcome ext.Schema) (accum : List String) {accum' : List String}
      → extract_aggregates es input accum ≡ ok accum'
      → Subset accum accum'
  unfolding extract_aggregates
  Subset-extract_aggregates [] input accum h =
      subst (Subset accum) (ok-injective h) (Subset-refl accum)
  Subset-extract_aggregates (e ∷ es) input accum h =
      let (args, p, q) = bind-eq-ok (aggregate_args e) _ h in
      Subset-bind _ (extract_aggregates es input)
        (λ mid. Subset-extract_columns_list args input accum)
        (λ mid. Subset-extract_aggregates es input mid) q
