-- ===== src/Base/Names.antt =====
-- A `HashSet<String>` of column names. The program inserts, tests membership and emptiness, and
-- never iterates over one, so the order of the entries is not observed.
use Prim.Native.String.{String}
use mathlib.Core.Path.{◌≡◌}
use mathlib.Core.Bool.{Bool, true, false, ◌||◌}
use mathlib.Core.List.{List, [], ◌∷◌}
use native.Mathlib.Omega.{arith}
use text.Mathlib.Text.{◌==◌}
use text.Mathlib.TextEquality.{eq_iff}
use text.Mathlib.TextPositions.{eq_refl}
use fdapquery.Base.Tests.{if◌then◌else◌}

unfoldable pub contains : List String → String → Bool
contains [] n = false
contains (m ∷ ms) n = m == n || contains ms n

unfoldable pub insert : String → List String → List String
insert n s = if contains s n then s else n ∷ s

unfoldable pub extend : List String → List String → List String
extend [] s = s
extend (n ∷ ns) s = extend ns (insert n s)

-- Every name of the first set is in the second.
pub record Subset (s t : List String) : Type 0 where
  pub at : (n : String) → contains s n ≡ true → contains t n ≡ true

pub Subset-refl : (s : List String) → Subset s s
Subset-refl s = record { at = λ n h. h }

pub Subset-trans : {s t u : List String} → Subset s t → Subset t u → Subset s u
Subset-trans a b = record { at = λ n h. b.at n (a.at n h) }

pub contains-insert :
    (n m : String) (s : List String) → contains (insert n s) m ≡ (n == m || contains s m)
unfolding contains insert
contains-insert n m s = ground (arith, eq_iff n m)

pub contains-insert_self : (n : String) (s : List String) → contains (insert n s) n ≡ true
contains-insert_self n s = simp (contains-insert, eq_refl)

pub Subset-insert : (n : String) (s : List String) → Subset s (insert n s)
Subset-insert n s = record { at = λ m h. simp (contains-insert, h) (ground arith) }

pub Subset-extend : (ns s : List String) → Subset s (extend ns s)
unfolding extend
Subset-extend [] s = Subset-refl s
Subset-extend (n ∷ ns) s = Subset-trans (Subset-insert n s) (Subset-extend ns (insert n s))
