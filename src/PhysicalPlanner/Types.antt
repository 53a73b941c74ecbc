-- ===== src/PhysicalPlanner/Types.antt =====
-- The types of planned expressions (fdapquery/src/physical_planner.rs).
use fdapquery.Base.{
  ℕ, String, ◌≡◌, refl, sym, ap, subst, Bool, true, false, ◌||◌, inl, inr, ◌⊎◌, Option, none, some,
  List, [], ◌∷◌, get_elem?, find, Bool-cases, Option-cases,
}
use fdapquery.External.{External}
use fdapquery.Errors.{FdapQueryError, Outcome, ok, err, panic, ◌>>=◌, bind-eq-ok, ok-injective}
use fdapquery.Expr.{Expr}
use fdapquery.Expr.Field.{to_field, has_name}
use fdapquery.Operator.{Operator, is_comparison_operator, is_logic_operator}
use fdapquery.PhysicalExpr.{PhysicalExpr, data_type}
use fdapquery.PhysicalPlanner.{column_at, create_physical_expr}
use fdapquery.Plan.Scan.{position}

some-injective {ℓ} : {A : Type ℓ} {x y : A} → some x ≡ some y → x ≡ y
some-injective h = cc

none_ne_some {ℓ} : {A : Type ℓ} {x : A} → ¬ (none ≡ some x)
none_ne_some h = cc

later {ℓ} :
    {A : Type ℓ} (p : A → Bool) (x : A) (xs : List A) (i : ℕ)
    → p x ≡ false
    → position p (x ∷ xs) ≡ some i
    → (position p xs ≡ none) ⊎ ((j : ℕ) × (position p xs ≡ some j))
    → ((j : ℕ)
        → position p xs ≡ some j
        → (y : A) × (find p xs ≡ some y) × (get_elem? xs j ≡ some y))
    → (y : A) × (find p (x ∷ xs) ≡ some y) × (get_elem? (x ∷ xs) i ≡ some y)
unfolding position find
later p x xs i e h (inl n) ih = absurd (none_ne_some (rw (e, n) at h))
later p x xs i e h (inr (j, at)) ih =
    let (y, found, here) = ih j at in
    (
      y,
      rw e found,
      subst (λ k. get_elem? (x ∷ xs) k ≡ some y) (some-injective (rw (e, at) at h)) here,
    )

-- The element at the position that `position` answers is the one that `find` answers.
position-find {ℓ} :
    {A : Type ℓ} (p : A → Bool) (xs : List A) (i : ℕ)
    → position p xs ≡ some i
    → (x : A) × (find p xs ≡ some x) × (get_elem? xs i ≡ some x)
unfolding position find
position-find p [] i h = cc
position-find p (x ∷ xs) i h = elim (Bool-cases (p x)) [
  | inl e ↦
      (x, rw e refl, subst (λ j. get_elem? (x ∷ xs) j ≡ some x) (some-injective (rw e at h)) refl)
  | inr e ↦ later p x xs i e h (Option-cases (position p xs)) (position-find p xs)
]

module _ ⦃ext : External⦄ where
  err_ne_ok : {A : Type 0} {e : FdapQueryError} {a : A} → ¬ (err e ≡ ok a)
  err_ne_ok h = cc

  panic_ne_ok : {A : Type 0} {m : String} {a : A} → ¬ (◌≡◌ {A = Outcome A} (panic m) (ok a))
  panic_ne_ok h = cc

  -- A field that has the type of a planned expression.
  abbrev FieldOf : Expr → ext.Schema → PhysicalExpr → Type 0
  FieldOf e s p =
      (f : ext.Field) × (to_field e (ok s) ≡ ok f) × (data_type p s ≡ ok (ext.data_type f))

  index_type :
      (name : String) (i : ℕ) (s : ext.Schema) (f : ext.Field)
      → get_elem? (ext.fields s) i ≡ some f
      → data_type (PhysicalExpr.column name i) s ≡ ok (ext.data_type f)
  unfolding data_type
  index_type name i s f h = rw (h, data_type) refl

  column_field_found :
      (n : String) (s : ext.Schema) (f : ext.Field)
      → find (has_name n) (ext.fields s) ≡ some f
      → to_field (Expr.column n) (ok s) ≡ ok f
  unfolding to_field
  column_field_found n s f h = rw h refl

  index_field_found :
      (i : ℕ) (s : ext.Schema) (f : ext.Field)
      → get_elem? (ext.fields s) i ≡ some f
      → to_field (Expr.column_index i) (ok s) ≡ ok f
  unfolding to_field
  index_field_found i s f h = rw h refl

  column-FieldOf :
      (n : String) (s : ext.Schema) (p : PhysicalExpr)
      → create_physical_expr (Expr.column n) (ok s) ≡ ok p
      → (o : Option ℕ) → position (has_name n) (ext.fields s) ≡ o
      → FieldOf (Expr.column n) s p
  unfolding create_physical_expr
  column-FieldOf n s p h none e = absurd (err_ne_ok (rw e at h))
  column-FieldOf n s p h (some i) e =
      let (f, found, here) = position-find (has_name n) (ext.fields s) i e in
      (
        f,
        column_field_found n s f found,
        subst (λ p. data_type p s ≡ ok (ext.data_type f)) (ok-injective (rw e at h))
            (index_type n i s f here),
      )

  index-FieldOf :
      (i : ℕ) (s : ext.Schema) (p : PhysicalExpr)
      → create_physical_expr (Expr.column_index i) (ok s) ≡ ok p
      → (o : Option ext.Field) → get_elem? (ext.fields s) i ≡ o
      → FieldOf (Expr.column_index i) s p
  unfolding create_physical_expr
  index-FieldOf i s p h none e = absurd (panic_ne_ok (rw (column_at, e) at h))
  index-FieldOf i s p h (some f) e = (
    f,
    index_field_found i s f e,
    subst (λ p. data_type p s ≡ ok (ext.data_type f)) (ok-injective (rw (column_at, e) at h))
        (index_type (ext.name f) i s f e),
  )

  binary-FieldOf :
      (l r : Expr) (op : Operator) (s : ext.Schema) (pl pr : PhysicalExpr)
      → FieldOf l s pl
      → FieldOf (Expr.binary_expr l op r) s (PhysicalExpr.binary_expr pl op pr)
  unfolding to_field data_type
  binary-FieldOf l r op s pl pr (f, e, t) =
      elim (Bool-cases (is_comparison_operator op || is_logic_operator op)) [
        | inl c ↦
            rw c
              (ext.new_field _ ext.boolean true, refl, ap ok (sym (ext.data_type-new_field _ _ _)))
        | inr c ↦
            rw (c, e, t)
              (
                ext.new_field _ (ext.data_type f) true,
                refl,
                ap ok (sym (ext.data_type-new_field _ _ _)),
              )
      ]

  -- The logical and the physical half agree on the type of every planned expression.
  pub create_physical_expr-data_type :
      (e : Expr) (s : ext.Schema) (p : PhysicalExpr)
      → create_physical_expr e (ok s) ≡ ok p
      → (f : ext.Field) × (to_field e (ok s) ≡ ok f) × (data_type p s ≡ ok (ext.data_type f))
  unfolding create_physical_expr to_field data_type
  create_physical_expr-data_type (Expr.literal v) s p h =
      rw (← ok-injective h) (_, refl, ap ok (sym (ext.data_type-new_field _ _ _)))
  create_physical_expr-data_type (Expr.column n) s p h =
      column-FieldOf n s p h (position (has_name n) (ext.fields s)) refl
  create_physical_expr-data_type (Expr.column_index i) s p h =
      index-FieldOf i s p h (get_elem? (ext.fields s) i) refl
  create_physical_expr-data_type (Expr.date_subtract_interval d i) s p h =
      let (q, hq, rest) =
        bind-eq-ok (create_physical_expr d (ok s))
          (λ date. create_physical_expr i (ok s) >>= λ iv.
            ok (PhysicalExpr.date_subtract_interval_expr date iv))
          h in
      let (q', hq', eq) =
        bind-eq-ok (create_physical_expr i (ok s))
          (λ iv. ok (PhysicalExpr.date_subtract_interval_expr q iv)) rest in
      rw (← ok-injective eq) (_, refl, ap ok (sym (ext.data_type-new_field _ _ _)))
  create_physical_expr-data_type (Expr.date_add_interval d i) s p h =
      let (q, hq, rest) =
        bind-eq-ok (create_physical_expr d (ok s))
          (λ date. create_physical_expr i (ok s) >>= λ iv.
            ok (PhysicalExpr.date_add_interval_expr date iv))
          h in
      let (q', hq', eq) =
        bind-eq-ok (create_physical_expr i (ok s))
          (λ iv. ok (PhysicalExpr.date_add_interval_expr q iv)) rest in
      rw (← ok-injective eq) (_, refl, ap ok (sym (ext.data_type-new_field _ _ _)))
  create_physical_expr-data_type (Expr.cast e t) s p h =
      let (q, hq, eq) =
        bind-eq-ok (create_physical_expr e (ok s)) (λ p. ok (PhysicalExpr.cast_expr p t)) h in
      let (f, hf, tf) = create_physical_expr-data_type e s q hq in
      rw (← ok-injective eq, hf) (_, refl, ap ok (sym (ext.data_type-new_field _ _ _)))
  create_physical_expr-data_type (Expr.alias e a) s p h =
      let (f, hf, tf) = create_physical_expr-data_type e s p h in
      rw (hf, tf) (_, refl, ap ok (sym (ext.data_type-new_field _ _ _)))
  create_physical_expr-data_type (Expr.binary_expr l op r) s p h =
      let (pl, hl, rest) =
        bind-eq-ok (create_physical_expr l (ok s))
          (λ left.
            create_physical_expr r (ok s) >>= λ right. ok (PhysicalExpr.binary_expr left op right))
          h in
      let (pr, hr, eq) =
        bind-eq-ok (create_physical_expr r (ok s))
          (λ right. ok (PhysicalExpr.binary_expr pl op right)) rest in
      subst (FieldOf (Expr.binary_expr l op r) s) (ok-injective eq)
        (binary-FieldOf l r op s pl pr (create_physical_expr-data_type l s pl hl))
  create_physical_expr-data_type (Expr.not e) s p h = absurd (err_ne_ok h)
  create_physical_expr-data_type (Expr.scalar_function n args t) s p h = absurd (err_ne_ok h)
  create_physical_expr-data_type (Expr.aggregate_function k args d f o n) s p h =
      absurd (err_ne_ok h)
