-- ===== src/ColumnarValue/Lengths.antt =====
-- The lengths of the columns of values (fdapquery-physical-expr/src/columnar_value.rs).
use fdapquery.Base.{
  ℕ, ◌==◌, ◌≡◌, refl, sym, ◌∙◌, subst, Option, none, some, List, [], ◌∷◌, map, All, inl, inr,
  Bool-cases, ==_iff,
}
use fdapquery.External.{External}
use fdapquery.Arrow.{Arrow}
use fdapquery.Errors.{FdapQueryError, ok, err, traverse, bind-eq-ok, ok-injective}
use fdapquery.Scalar.Arrays.{try_from_array-to_array_of_size}
use fdapquery.ColumnarValue.{
  ColumnarValue, array, scalar, into_array, agreed, array_len_of, or_one, values_to_arrays,
}

module _ ⦃ext : External⦄ ⦃arrow : Arrow⦄ where
  err_ne_ok : {A : Type 0} {e : FdapQueryError} {a : A} → ¬ (err e ≡ ok a)
  err_ne_ok h = cc

  -- Every array among the arguments has this length.
  abbrev pub Agree : ℕ → List ColumnarValue → Type 0
  Agree n [] = Unit
  Agree n (array a ∷ args) = (arrow.array_len a ≡ n) × Agree n args
  Agree n (scalar s ∷ args) = Agree n args

  -- With a length known, the loop answers it exactly if the arrays have it.
  array_len_of-some :
      (args : List ColumnarValue) (n : ℕ) (o : Option ℕ)
      → array_len_of args (some n) ≡ ok o
      → (o ≡ some n) × Agree n args
  unfolding array_len_of agreed
  array_len_of-some [] n o h = (sym (ok-injective h), tt)
  array_len_of-some (array a ∷ args) n o h = elim (Bool-cases (n == arrow.array_len a)) [
    | inl e ↦
        let (same, agree) = array_len_of-some args n o (rw e at h) in
        (same, (sym ((==_iff n (arrow.array_len a)).0 e), agree))
    | inr e ↦ absurd (err_ne_ok (rw e at h))
  ]
  array_len_of-some (scalar s ∷ args) n o h = array_len_of-some args n o h

  array_len_of-Agree :
      (args : List ColumnarValue) (o : Option ℕ)
      → array_len_of args none ≡ ok o
      → Agree (or_one o) args
  unfolding array_len_of agreed or_one
  array_len_of-Agree [] o h = tt
  array_len_of-Agree (array a ∷ args) o h =
      let (same, agree) = array_len_of-some args (arrow.array_len a) o h in
      subst (λ o. Agree (or_one o) (array a ∷ args)) (sym same) (refl, agree)
  array_len_of-Agree (scalar s ∷ args) o h = array_len_of-Agree args o h

  lengths :
      (n : ℕ) (args : List ColumnarValue)
      → Agree n args
      → All (λ a. arrow.array_len a ≡ n) (map (λ a. into_array a n) args)
  unfolding into_array
  lengths n [] h = tt
  lengths n (array a ∷ args) (e, h) = (e, lengths n args h)
  lengths n (scalar s ∷ args) h = ((try_from_array-to_array_of_size s n 0).0, lengths n args h)

  traverse-map :
      {A B : Type 0} (f : A → B) (xs : List A) → traverse (λ x. ok (f x)) xs ≡ ok (map f xs)
  unfolding traverse
  traverse-map f [] = refl
  traverse-map f (x ∷ xs) = rw (traverse-map f xs) refl

  -- The columns that `values_to_arrays` answers are those of its arguments, and all of one length.
  pub values_to_arrays-lengths :
      (args : List ColumnarValue) (arrays : List arrow.ArrayRef)
      → values_to_arrays args ≡ ok arrays
      → (n : ℕ) × (arrays ≡ map (λ a. into_array a n) args)
        × All (λ a. arrow.array_len a ≡ n) arrays
  unfolding values_to_arrays
  values_to_arrays-lengths [] arrays h =
      (0, sym (ok-injective h), subst (All _) (ok-injective h) tt)
  values_to_arrays-lengths (arg ∷ args) arrays h =
      let (o, ho, rest) = bind-eq-ok (array_len_of (arg ∷ args) none) _ h in
      let same =
        ok-injective (sym (traverse-map (λ a. into_array a (or_one o)) (arg ∷ args)) ∙ rest) in
      (
        or_one o,
        sym same,
        subst (All (λ a. arrow.array_len a ≡ or_one o)) same
            (lengths (or_one o) (arg ∷ args) (array_len_of-Agree (arg ∷ args) o ho)),
      )
