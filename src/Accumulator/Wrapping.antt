-- ===== src/Accumulator/Wrapping.antt =====
-- `wrapping_add` of Rust's integers.
use native.Mathlib.Nat.{mod-add-mod, add-mod-mod, mod-eq_of_lt, mod-lt}
use fdapquery.Base.{
  ℕ, ◌+◌, ◌-◌, ◌%◌, ◌<◌, ◌≤◌, ◌≡◌, sym, ◌∙◌, ap, inl, inr, ℤ, ltb, Bool-cases, arith,
}
use fdapquery.Accumulator.{to_bits, of_bits, wrapping_add, wrapping_add_unsigned}

add_mod_assoc : (a b c m : ℕ) → ((a + b) % m + c) % m ≡ (a + (b + c) % m) % m
add_mod_assoc a b c m =
    mod-add-mod (a + b) m c ∙ ap (λ k. k % m) (assoc a b c) ∙ sym (add-mod-mod a (b + c) m)
  where
    assoc : (a b c : ℕ) → a + b + c ≡ a + (b + c)
    assoc a b c = omega arith

pub wrapping_add_unsigned_assoc :
    (m a b c : ℕ)
    → wrapping_add_unsigned m (wrapping_add_unsigned m a b) c
      ≡ wrapping_add_unsigned m a (wrapping_add_unsigned m b c)
unfolding wrapping_add_unsigned
wrapping_add_unsigned_assoc m a b c = add_mod_assoc a b c m

pub to_bits-of_bits : (half n : ℕ) → n < half + half → to_bits (half + half) (of_bits half n) ≡ n
unfolding to_bits of_bits
to_bits-of_bits half n h = elim (Bool-cases (ltb n half)) [
  | inl t ↦ rw t (mod-eq_of_lt h)
  | inr f ↦ rw (f, mod-eq_of_lt (below half n h)) (back half n h)
]
  where
    below : (half n : ℕ) → n < half + half → half + half - 1 - n < half + half
    below half n h = omega arith

    back : (half n : ℕ) → n < half + half → half + half - 1 - (half + half - 1 - n) ≡ n
    back half n h = omega arith

pub wrapping_add_assoc :
    (half : ℕ) (a b c : ℤ)
    → 1 ≤ half
    → wrapping_add half (wrapping_add half a b) c ≡ wrapping_add half a (wrapping_add half b c)
unfolding wrapping_add
wrapping_add_assoc half a b c pos =
    let x = to_bits (half + half) a in
    let y = to_bits (half + half) b in
    let z = to_bits (half + half) c in
    ap (of_bits half) (
      ap (λ k. (k + z) % (half + half))
        (to_bits-of_bits half ((x + y) % (half + half)) (mod-lt (x + y) (omega arith)))
      ∙ add_mod_assoc x y z (half + half)
      ∙ ap (λ k. (x + k) % (half + half))
          (sym (to_bits-of_bits half ((y + z) % (half + half)) (mod-lt (y + z) (omega arith)))))
