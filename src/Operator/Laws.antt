-- ===== src/Operator/Laws.antt =====
-- fdapquery-expr/src/operator.rs: operators with their operands swapped, and precedence.
use fdapquery.Base.{◌≤◌, ◌<◌, ◌≡◌, true, some, arith}
use fdapquery.Operator.{
  Operator, is_logic_operator, is_comparison_operator, is_numerical_operators, precedence, swap,
}

-- Swapping the operands twice gives the operator back: whenever `swap` answers with an operator,
-- `swap` of that one is the first. The answer is in the same classes as the operator and binds as
-- tightly.
pub swap_involutive :
    (op op' : Operator)
    → swap op ≡ some op'
    → (swap op' ≡ some op)
      × (is_comparison_operator op' ≡ is_comparison_operator op)
      × (is_logic_operator op' ≡ is_logic_operator op)
      × (is_numerical_operators op' ≡ is_numerical_operators op)
      × (precedence op' ≡ precedence op)
unfolding swap is_comparison_operator is_logic_operator is_numerical_operators precedence
swap_involutive Operator.eq op' h = ground arith
swap_involutive _ op' h = ground arith

numerical_bound : (op : Operator) → is_numerical_operators op ≡ true → 30 ≤ precedence op
unfolding is_numerical_operators precedence
numerical_bound op h = ground arith

comparison_bounds :
    (op : Operator) → is_comparison_operator op ≡ true → (20 ≤ precedence op) × (precedence op ≤ 25)
unfolding is_comparison_operator precedence
comparison_bounds op h = ground arith

logic_bound : (op : Operator) → is_logic_operator op ≡ true → precedence op ≤ 10
unfolding is_logic_operator precedence
logic_bound op h = ground arith

-- The precedence of the operators of one class lies apart from that of the next: an arithmetic
-- operator binds more tightly than any comparison, and a comparison more tightly than `AND`, `OR`.
pub precedence_classes :
    (a c l : Operator)
    → is_numerical_operators a ≡ true
    → is_comparison_operator c ≡ true
    → is_logic_operator l ≡ true
    → (precedence c < precedence a) × (precedence l < precedence c)
precedence_classes a c l ha hc hl =
    omega (arith, numerical_bound a ha, comparison_bounds c hc, logic_bound l hl)
