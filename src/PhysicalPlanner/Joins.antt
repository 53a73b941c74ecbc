-- ===== src/PhysicalPlanner/Joins.antt =====
-- The columns of planned joins (fdapquery/src/physical_planner.rs), beside those of their rows.
use fdapquery.Base.{
  ℕ, ◌+◌, ◌<◌, ◌≡◌, ◌≢◌, refl, sym, ◌∙◌, true, false, ◌⊎◌, inl, inr, List, [], ◌∷◌, ◌++◌, String,
  filter, Bool-cases, arith,
}
use fdapquery.Base.Names.{contains}
use fdapquery.External.{External}
use fdapquery.Arrow.{Kind}
use fdapquery.Errors.{ok}
use fdapquery.Join.HashTable.{contains_index, kept}
use fdapquery.Plan.{JoinType, join_fields, is_kept}
use fdapquery.PhysicalPlanner.{excluded_from}
use fdapquery.Rows.Write.{Typed}

module _ ⦃ext : External⦄ (dup : List String) where
  excluded_below :
      (i k : ℕ) (fs : List ext.Field) → k < i → contains_index (excluded_from dup i fs) k ≡ false
  unfolding excluded_from contains_index
  excluded_below i k [] h = refl
  excluded_below i k (f ∷ fs) h = ground (arith, excluded_below (i + 1) k fs)

  excluded_head :
      (i : ℕ) (f : ext.Field) (fs : List ext.Field)
      → contains_index (excluded_from dup i (f ∷ fs)) i ≡ contains dup (ext.name f)
  unfolding excluded_from contains_index
  excluded_head i f fs = elim (Bool-cases (contains dup (ext.name f))) [
    | inl e ↦ rw e (ground arith)
    | inr e ↦ rw e (excluded_below (i + 1) i fs (omega arith))
  ]

  excluded_tail :
      (i k : ℕ) (f : ext.Field) (fs : List ext.Field)
      → i < k
      → contains_index (excluded_from dup i (f ∷ fs)) k
        ≡ contains_index (excluded_from dup (i + 1) fs) k
  unfolding excluded_from contains_index
  excluded_tail i k f fs h = elim (Bool-cases (contains dup (ext.name f))) [
    | inl e ↦ rw e (ground arith)
    | inr e ↦ rw e refl
  ]

  -- The fields kept by name have the types kept by position.
  Typed-kept :
      (excluded : List ℕ) (i : ℕ) (fs : List ext.Field) (ks : List Kind)
      → ((k : ℕ)
          → i < k + 1
          → contains_index excluded k ≡ contains_index (excluded_from dup i fs) k)
      → Typed fs ks
      → Typed (filter (is_kept dup) fs) (kept excluded i ks)
  unfolding kept filter
  Typed-kept excluded i [] [] same t = tt
  Typed-kept excluded i [] (k ∷ ks) same t = elim t [ ]
  Typed-kept excluded i (f ∷ fs) [] same t = elim t [ ]
  Typed-kept excluded i (f ∷ fs) (k ∷ ks) same (e, t) =
      let head = same i (omega arith) ∙ excluded_head i f fs in
      let rest =
        Typed-kept excluded (i + 1) fs ks
          (λ k h. same k (omega arith) ∙ excluded_tail i k f fs (omega arith)) t in
      elim (Bool-cases (contains dup (ext.name f))) [
        | inl c ↦ rw (head, c) rest
        | inr c ↦ rw (head, c) (e, rest)
      ]

  Typed-append :
      (fs gs : List ext.Field) (ks ls : List Kind)
      → Typed fs ks
      → Typed gs ls
      → Typed (fs ++ gs) (ks ++ ls)
  Typed-append [] gs [] ls t u = u
  Typed-append [] gs (k ∷ ks) ls t u = elim t [ ]
  Typed-append (f ∷ fs) gs [] ls t u = elim t [ ]
  Typed-append (f ∷ fs) gs (k ∷ ks) ls (e, t) u = (e, Typed-append fs gs ks ls t u)

  module _ (ls rs : List ext.Field) (lks rks : List Kind) (left : Typed ls lks)
      (right : Typed rs rks) where
    abbrev joined_kinds : List Kind
    joined_kinds = lks ++ kept (excluded_from dup 0 rs) 0 rks

    -- The schema of an inner or left join has the types of the rows that are joined under it.
    pub join_fields-Typed :
        (jt : JoinType)
        → (jt ≡ JoinType.inner) ⊎ (jt ≡ JoinType.left)
        → (fs : List ext.Field) × (join_fields jt dup ls rs ≡ ok fs)
          × Typed fs (lks ++ kept (excluded_from dup 0 rs) 0 rks)
    unfolding join_fields
    join_fields-Typed jt which =
        let t =
          Typed-append ls (filter (is_kept dup) rs) lks (kept (excluded_from dup 0 rs) 0 rks) left
            (Typed-kept (excluded_from dup 0 rs) 0 rs rks (λ k h. refl) right) in
        elim which [
          | inl e ↦ rw e (ls ++ filter (is_kept dup) rs, refl, t)
          | inr e ↦ rw e (ls ++ filter (is_kept dup) rs, refl, t)
        ]

module _ ⦃ext : External⦄ where
  -- The schema of a right join leaves the shared key out on the left, and its rows on the right: they
  -- differ if the left input starts with such a key and then has a column of another type.
  pub join_fields-right :
      (dup : List String) (f g : ext.Field) (ls rs : List ext.Field) (lks rks : List Kind)
      → Typed (f ∷ g ∷ ls) lks
      → contains dup (ext.name f) ≡ true
      → contains dup (ext.name g) ≡ false
      → ext.data_type f ≢ ext.data_type g
      → (fs : List ext.Field) × (join_fields JoinType.right dup (f ∷ g ∷ ls) rs ≡ ok fs)
        × ¬ Typed fs (lks ++ kept (excluded_from dup 0 rs) 0 rks)
  unfolding join_fields filter
  join_fields-right dup f g ls rs [] rks t cf cg ne = elim t [ ]
  join_fields-right dup f g ls rs (k ∷ lks) rks (e, t) cf cg ne =
      (g ∷ filter (is_kept dup) ls ++ rs, rw (cf, cg) refl, λ (u, _). ne (e ∙ sym u))
