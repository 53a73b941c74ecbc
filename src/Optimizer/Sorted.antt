-- ===== src/Optimizer/Sorted.antt =====
-- What `Vec<String>::sort` answers (fdapquery-optimizer/src/projection_push_down_rule.rs).
use mathlib.Core.List.Perm
use mathlib.Core.List.{Perm}
use fdapquery.Base.{
  is_empty, refl, false, String, ◌≡◌, true, List, [], ◌∷◌, inl, inr, Bool-cases, text_leb,
  text_leb_total,
}
use fdapquery.Optimizer.{sort, insert_sorted}

-- No element is greater than the one after it.
abbrev pub Ascending : List String → Type 0
Ascending [] = Unit
Ascending (s ∷ []) = Unit
Ascending (s ∷ t ∷ ts) = (text_leb s t ≡ true) × Ascending (t ∷ ts)

Perm-insert_sorted : (s : String) (ts : List String) → Perm (insert_sorted s ts) (s ∷ ts)
unfolding insert_sorted
Perm-insert_sorted s [] = Perm.refl (s ∷ [])
Perm-insert_sorted s (t ∷ ts) = elim (Bool-cases (text_leb s t)) [
  | inl e ↦ rw e (Perm.refl (s ∷ t ∷ ts))
  | inr e ↦ rw e (Perm.trans (Perm.cons t (Perm-insert_sorted s ts)) (Perm.swap s t ts))
]

Ascending-insert_sorted :
    (s : String) (ts : List String) → Ascending ts → Ascending (insert_sorted s ts)
unfolding insert_sorted
Ascending-insert_sorted s [] a = tt
Ascending-insert_sorted s (t ∷ []) a = elim (Bool-cases (text_leb s t)) [
  | inl e ↦ rw e (e, tt)
  | inr e ↦ rw e (text_leb_total s t e, tt)
]
Ascending-insert_sorted s (t ∷ u ∷ us) (le, a) = elim (Bool-cases (text_leb s t)) [
  | inl e ↦ rw e (e, (le, a))
  | inr e ↦
      let rest = Ascending-insert_sorted s (u ∷ us) a in
      elim (Bool-cases (text_leb s u)) [
        | inl f ↦ rw (e, f) (text_leb_total s t e, rw f at rest)
        | inr f ↦ rw (e, f) (le, rw f at rest)
      ]
]

pub Perm-sort : (ss : List String) → Perm (sort ss) ss
unfolding sort
Perm-sort [] = Perm.refl []
Perm-sort (s ∷ ss) = Perm.trans (Perm-insert_sorted s (sort ss)) (Perm.cons s (Perm-sort ss))

pub Ascending-sort : (ss : List String) → Ascending (sort ss)
unfolding sort
Ascending-sort [] = tt
Ascending-sort (s ∷ ss) = Ascending-insert_sorted s (sort ss) (Ascending-sort ss)

is_empty-insert_sorted : (s : String) (ts : List String) → is_empty (insert_sorted s ts) ≡ false
unfolding insert_sorted
is_empty-insert_sorted s [] = refl
is_empty-insert_sorted s (t ∷ ts) = elim (Bool-cases (text_leb s t)) [
  | inl e ↦ rw e refl
  | inr e ↦ rw e refl
]

pub is_empty-sort : (ss : List String) → is_empty (sort ss) ≡ is_empty ss
unfolding sort
is_empty-sort [] = refl
is_empty-sort (s ∷ ss) = is_empty-insert_sorted s (sort ss)
