-- ===== src/Base/TextOrder.antt =====
-- The order of Rust's `str` is total.
use Prim.Native.Nat.compare as compare_ℕ
use Prim.Native.Nat.{ℕ, zero, suc, Ordering, compare as compare_ℕ}
use Prim.Native.Char.{code}
use Prim.Native.String.compare
use Prim.Native.String.{String, [], ◌∷◌, compare, then}
use mathlib.Core.Path.{◌≡◌, refl, sym, ◌∙◌, ap}
use mathlib.Core.Bool.{Bool, true, false}
use fdapquery.Base.Tests.{text_leb}

abbrev flip : Ordering → Ordering
flip Ordering.lt = Ordering.gt
flip Ordering.eq = Ordering.eq
flip Ordering.gt = Ordering.lt

flip-then : (o r : Ordering) → flip (then o r) ≡ then (flip o) (flip r)
flip-then Ordering.lt r = refl
flip-then Ordering.eq r = refl
flip-then Ordering.gt r = refl

flip-compare_numbers : (m n : ℕ) → compare_ℕ n m ≡ flip (compare_ℕ m n)
flip-compare_numbers zero zero = refl
flip-compare_numbers zero (suc n) = compare_ℕ.suc-zero n ∙ ap flip (sym (compare_ℕ.zero-suc n))
flip-compare_numbers (suc m) zero = compare_ℕ.zero-suc m ∙ ap flip (sym (compare_ℕ.suc-zero m))
flip-compare_numbers (suc m) (suc n) =
    compare_ℕ.suc-suc n m ∙ flip-compare_numbers m n ∙ ap flip (sym (compare_ℕ.suc-suc m n))

flip-compare : (s t : String) → compare t s ≡ flip (compare s t)
flip-compare [] [] = refl
flip-compare [] (d ∷ t) = compare.cons-nil d t ∙ ap flip (sym (compare.nil-cons d t))
flip-compare (c ∷ s) [] = compare.nil-cons c s ∙ ap flip (sym (compare.cons-nil c s))
flip-compare (c ∷ s) (d ∷ t) =
    compare.cons-cons d c t s
    ∙ (λ i. then (flip-compare_numbers (code c) (code d) i) (flip-compare s t i))
    ∙ sym (flip-then (compare_ℕ (code c) (code d)) (compare s t))
    ∙ ap flip (sym (compare.cons-cons c d s t))

pub text_leb_total : (s t : String) → text_leb s t ≡ false → text_leb t s ≡ true
text_leb_total s t h = rw (text_leb, flip-compare s t) (greater (compare s t) h)
  where
    le : Ordering → Bool
    le o = elim o [ Ordering.gt ↦ false | _ ↦ true ]

    greater : (o : Ordering) → le o ≡ false → le (flip o) ≡ true
    greater Ordering.lt h = cc
    greater Ordering.eq h = refl
    greater Ordering.gt h = refl
