-- ===== src/Optimizer/Joins.antt =====
-- The fields of a join over inputs that agree on the requested names (fdapquery-expr/src/join.rs).
use fdapquery.Base.{
  String, ◌≡◌, refl, subst, true, none, List, [], ◌∷◌, arith, find, find-append, filter,
  if◌then◌else◌, eq_iff,
}
use fdapquery.Base.Names.{contains}
use fdapquery.External.{External}
use fdapquery.Errors.{ok, ok-injective}
use fdapquery.Expr.Field.{has_name}
use fdapquery.Plan.{JoinType, is_kept, join_fields, join_schema}
use fdapquery.Optimizer.Columns.{Agree}

module _ ⦃ext : External⦄ where
  find-kept :
      (n : String) (dup : List String) (fs : List ext.Field)
      → find (has_name n) (filter (is_kept dup) fs)
        ≡ (if contains dup n then none else find (has_name n) fs)
  unfolding find filter
  find-kept n dup [] = ground arith
  find-kept n dup (f ∷ fs) = ground (arith, find-kept n dup fs, eq_iff (ext.name f) n)

  -- A join output made of lists of fields on which the finds of all the names agree.
  Agree-new_schema :
      {names : List String} (fs gs : List ext.Field) {s : ext.Schema}
      → ext.new_schema fs ≡ s
      → ((n : String) → contains names n ≡ true → find (has_name n) gs ≡ find (has_name n) fs)
      → Agree names s (ext.new_schema gs)
  Agree-new_schema {names = names} fs gs e same =
      subst (λ x. Agree names x (ext.new_schema gs)) e
        (record { at = λ n h. simp ext.fields-new_schema (same n h) })

  module _ {names : List String} {l r l' r' : ext.Schema} (on : List (String × String)) where
    pub Agree-join_schema :
        (join_type : JoinType) {s : ext.Schema}
        → Agree names l l'
        → Agree names r r'
        → join_schema join_type on (ok l) (ok r) ≡ ok s
        → (t : ext.Schema) × (join_schema join_type on (ok l') (ok r') ≡ ok t) × Agree names s t
    unfolding join_schema join_fields
    Agree-join_schema JoinType.inner al ar h = (
      _,
      refl,
      Agree-new_schema _ _ (ok-injective h)
          (λ n c. simp (find-append, find-kept, al.at n c, ar.at n c)),
    )
    Agree-join_schema JoinType.left al ar h = (
      _,
      refl,
      Agree-new_schema _ _ (ok-injective h)
          (λ n c. simp (find-append, find-kept, al.at n c, ar.at n c)),
    )
    Agree-join_schema JoinType.right al ar h = (
      _,
      refl,
      Agree-new_schema _ _ (ok-injective h)
          (λ n c. simp (find-append, find-kept, al.at n c, ar.at n c)),
    )
    Agree-join_schema _ al ar h = cc
