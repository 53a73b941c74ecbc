-- ===== src/Base/Text.antt =====
-- Texts: `format!` as the concatenation of its pieces, `join`, and decimal numbers.
use Prim.Native.Nat.{ℕ, zero, suc, ◌+◌, ◌/◌, ◌%◌}
use Prim.Native.String.{String, ◌++◌}
use mathlib.Core.List.{List, [], ◌∷◌}
use mathlib.Core.Path.{◌≡◌, refl}
use fdapquery.Base.Tests.{ltb, ◌==◌, if◌then◌else◌}

unfoldable pub concat : List String → String
concat [] = ""
concat (s ∷ ss) = s ++ concat ss

-- Rust's `[String]::join`.
join_rest : String → List String → String
join_rest sep [] = ""
join_rest sep (s ∷ ss) = sep ++ (s ++ join_rest sep ss)

unfoldable pub join : String → List String → String
unfolding join_rest
join sep [] = ""
join sep (s ∷ ss) = s ++ join_rest sep ss

digit : ℕ → String
digit d =
    if d == 0
    then "0"
    else if d == 1
    then "1"
    else if d == 2
    then "2"
    else if d == 3
    then "3"
    else if d == 4
    then "4"
    else if d == 5
    then "5"
    else if d == 6
    then "6"
    else if d == 7
    then "7"
    else if d == 8
    then "8"
    else "9"

-- One digit is taken off in each round, so a number has fewer digits than rounds.
digits : ℕ → ℕ → String
digits zero n = ""
digits (suc rounds) n =
    let more = digits rounds (n / 10) in
    let last = digit (n % 10) in if ltb n 10 then last else more ++ last

-- `Display` of an unsigned integer.
unfoldable pub decimal : ℕ → String
unfolding digits digit
decimal n = digits (n + 1) n

decimal_1047 : decimal 1047 ≡ "1047"
unfolding decimal
decimal_1047 = refl

join_three : join ", " ("a" ∷ "b" ∷ "c" ∷ []) ≡ "a, b, c"
unfolding join
join_three = refl
