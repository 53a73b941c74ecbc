-- ===== src/Tests/OperatorTests.antt =====
-- The theorems about operators at concrete inputs.
use fdapquery.Base.{◌<◌, ◌≡◌, refl, some}
use fdapquery.Operator.{
  Operator, is_logic_operator, is_comparison_operator, is_numerical_operators, precedence, swap,
}
use fdapquery.Operator.Laws.{swap_involutive, precedence_classes}

swap_lt : swap Operator.lt_eq ≡ some Operator.gt_eq
unfolding swap
swap_lt = refl

swap_involutive_example :
    (swap Operator.gt_eq ≡ some Operator.lt_eq)
    × (is_comparison_operator Operator.gt_eq ≡ is_comparison_operator Operator.lt_eq)
    × (is_logic_operator Operator.gt_eq ≡ is_logic_operator Operator.lt_eq)
    × (is_numerical_operators Operator.gt_eq ≡ is_numerical_operators Operator.lt_eq)
    × (precedence Operator.gt_eq ≡ precedence Operator.lt_eq)
swap_involutive_example = swap_involutive Operator.lt_eq Operator.gt_eq swap_lt

precedence_classes_example :
    (precedence Operator.eq < precedence Operator.plus)
    × (precedence Operator.and < precedence Operator.eq)
unfolding is_logic_operator is_comparison_operator is_numerical_operators
precedence_classes_example =
    precedence_classes Operator.plus Operator.eq Operator.and refl refl refl
