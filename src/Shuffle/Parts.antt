-- ===== src/Shuffle/Parts.antt =====
-- A list divided by the numbers of its elements, as fdapquery-physical-plan/src/shuffle_writer_exec.rs
-- divides rows.
use mathlib.Core.List.{Perm, perm_middle}
use mathlib.Core.List.Perm
use fdapquery.Base.{
  ℕ, zero, suc, ◌+◌, ◌<◌, ◌≡◌, refl, sym, subst, Bool, false, List, [], ◌∷◌, ◌++◌, map, ◌==◌,
  filter, All, arith, inl, inr, Bool-cases,
}
use fdapquery.Shuffle.Select.{pick}
use fdapquery.Shuffle.{any_true}

-- The elements of each number, from a number on.
unfoldable pub parts {ℓ} : {A : Type ℓ} → (A → ℕ) → (part count : ℕ) → List A → List (List A)
parts g part zero xs = []
parts g part (suc count) xs = filter (λ x. g x == part) xs ∷ parts g (part + 1) count xs

unfoldable pub flatten {ℓ} : {A : Type ℓ} → List (List A) → List A
flatten [] = []
flatten (xs ∷ xss) = xs ++ flatten xss

pub filter-append {ℓ} :
    {A : Type ℓ} (q : A → Bool) (xs ys : List A) → filter q (xs ++ ys) ≡ filter q xs ++ filter q ys
unfolding filter
filter-append q [] ys = refl
filter-append q (x ∷ xs) ys = elim (Bool-cases (q x)) [
  | inl e ↦ rw (e, filter-append q xs ys) refl
  | inr e ↦ rw (e, filter-append q xs ys) refl
]

pub pick-filter {ℓ} : {A : Type ℓ} (q : A → Bool) (xs : List A) → pick (map q xs) xs ≡ filter q xs
unfolding pick filter
pick-filter q [] = refl
pick-filter q (x ∷ xs) = elim (Bool-cases (q x)) [
  | inl e ↦ rw (e, pick-filter q xs) refl
  | inr e ↦ rw (e, pick-filter q xs) refl
]

pub any_true-filter {ℓ} :
    {A : Type ℓ} (q : A → Bool) (xs : List A) → any_true (map q xs) ≡ false → filter q xs ≡ []
unfolding any_true filter
any_true-filter q [] h = refl
any_true-filter q (x ∷ xs) h = elim (Bool-cases (q x)) [
  | inl e ↦ absurd (ground (arith, e, h))
  | inr e ↦ rw e (any_true-filter q xs (rw e at h))
]

-- An element of a smaller number is in no part.
parts-below {ℓ} :
    {A : Type ℓ} (g : A → ℕ) (part count : ℕ) (x : A) (xs : List A)
    → g x < part
    → parts g part count (x ∷ xs) ≡ parts g part count xs
unfolding parts filter
parts-below g part zero x xs h = refl
parts-below g part (suc count) x xs h =
    let no : (g x == part) ≡ false = ground arith in
    rw (no, parts-below g (part + 1) count x xs (omega arith)) refl

parts-cons {ℓ} :
    {A : Type ℓ} (g : A → ℕ) (part count : ℕ) (x : A) (xs : List A)
    → part < g x + 1
    → g x < part + count
    → Perm (flatten (parts g part count (x ∷ xs))) (x ∷ flatten (parts g part count xs))
unfolding parts filter flatten
parts-cons g part zero x xs lo hi = absurd (omega arith)
parts-cons g part (suc count) x xs lo hi = elim (Bool-cases (g x == part)) [
  | inl e ↦ rw (e, parts-below g (part + 1) count x xs (ground arith)) (Perm.refl _)
  | inr e ↦ rw e (
      Perm.trans
        (Perm.append_left (filter (λ y. g y == part) xs)
          (parts-cons g (part + 1) count x xs (ground arith) (omega arith)))
        (perm_middle (filter (λ y. g y == part) xs) _))
]

parts-nil {ℓ} : {A : Type ℓ} (g : A → ℕ) (part count : ℕ) → flatten (parts g part count []) ≡ []
unfolding parts filter flatten
parts-nil g part zero = refl
parts-nil g part (suc count) = parts-nil g (part + 1) count

-- The parts together are the list, in another order.
pub parts-Perm {ℓ} :
    {A : Type ℓ} (g : A → ℕ) (count : ℕ) (xs : List A)
    → All (λ x. g x < count) xs
    → Perm (flatten (parts g 0 count xs)) xs
parts-Perm g count [] h = subst (λ ys. Perm ys []) (sym (parts-nil g 0 count)) Perm.nil
parts-Perm g count (x ∷ xs) (lt, h) =
    Perm.trans (parts-cons g 0 count x xs (omega arith) (omega (arith, lt)))
      (Perm.cons x (parts-Perm g count xs h))
