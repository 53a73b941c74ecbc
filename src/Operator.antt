-- ===== src/Operator.antt =====
-- fdapquery-expr/src/operator.rs: the binary operators, their classes, precedence and texts.
pub mod Laws
use fdapquery.Base.{ℕ, String, Bool, true, false, Option, none, some}

pub data Operator : Type 0 where
  eq not_eq lt lt_eq gt gt_eq is_distinct_from is_not_distinct_from : Operator
  plus minus multiply divide modulo : Operator
  and or : Operator
  like_match i_like_match not_like_match not_i_like_match : Operator
  bitwise_and bitwise_or bitwise_xor bitwise_shift_right bitwise_shift_left : Operator
  string_concat at_arrow arrow_at : Operator
  regex_match regex_i_match regex_not_match regex_not_i_match : Operator

unfoldable pub is_logic_operator : Operator → Bool
is_logic_operator and = true
is_logic_operator or = true
is_logic_operator _ = false

unfoldable pub is_comparison_operator : Operator → Bool
is_comparison_operator eq = true
is_comparison_operator not_eq = true
is_comparison_operator lt = true
is_comparison_operator lt_eq = true
is_comparison_operator gt = true
is_comparison_operator gt_eq = true
is_comparison_operator is_distinct_from = true
is_comparison_operator is_not_distinct_from = true
is_comparison_operator like_match = true
is_comparison_operator i_like_match = true
is_comparison_operator not_like_match = true
is_comparison_operator not_i_like_match = true
is_comparison_operator regex_match = true
is_comparison_operator regex_i_match = true
is_comparison_operator regex_not_match = true
is_comparison_operator regex_not_i_match = true
is_comparison_operator _ = false

unfoldable pub is_numerical_operators : Operator → Bool
is_numerical_operators plus = true
is_numerical_operators minus = true
is_numerical_operators multiply = true
is_numerical_operators divide = true
is_numerical_operators modulo = true
is_numerical_operators _ = false

unfoldable pub precedence : Operator → ℕ
precedence or = 5
precedence and = 10
precedence eq = 20
precedence not_eq = 20
precedence lt = 20
precedence lt_eq = 20
precedence gt = 20
precedence gt_eq = 20
precedence is_distinct_from = 20
precedence is_not_distinct_from = 20
precedence like_match = 25
precedence i_like_match = 25
precedence not_like_match = 25
precedence not_i_like_match = 25
precedence regex_match = 25
precedence regex_i_match = 25
precedence regex_not_match = 25
precedence regex_not_i_match = 25
precedence plus = 30
precedence minus = 30
precedence multiply = 40
precedence divide = 40
precedence modulo = 40
precedence bitwise_and = 18
precedence bitwise_or = 18
precedence bitwise_xor = 18
precedence bitwise_shift_left = 19
precedence bitwise_shift_right = 19
precedence string_concat = 27
precedence at_arrow = 22
precedence arrow_at = 22

unfoldable pub swap : Operator → Option Operator
swap eq = some eq
swap not_eq = some not_eq
swap lt = some gt
swap gt = some lt
swap lt_eq = some gt_eq
swap gt_eq = some lt_eq
swap and = some and
swap or = some or
swap is_distinct_from = some is_distinct_from
swap is_not_distinct_from = some is_not_distinct_from
swap plus = some plus
swap multiply = some multiply
swap bitwise_and = some bitwise_and
swap bitwise_or = some bitwise_or
swap bitwise_xor = some bitwise_xor
swap _ = none

-- `Display`.
unfoldable pub to_string : Operator → String
to_string eq = "="
to_string not_eq = "!="
to_string lt = "<"
to_string lt_eq = "<="
to_string gt = ">"
to_string gt_eq = ">="
to_string plus = "+"
to_string minus = "-"
to_string multiply = "*"
to_string divide = "/"
to_string modulo = "%"
to_string and = "AND"
to_string or = "OR"
to_string is_distinct_from = "IS DISTINCT FROM"
to_string is_not_distinct_from = "IS NOT DISTINCT FROM"
to_string like_match = "LIKE"
to_string i_like_match = "ILIKE"
to_string not_like_match = "NOT LIKE"
to_string not_i_like_match = "NOT ILIKE"
to_string bitwise_and = "&"
to_string bitwise_or = "|"
to_string bitwise_xor = "BIT_XOR"
to_string bitwise_shift_right = ">>"
to_string bitwise_shift_left = "<<"
to_string string_concat = "||"
to_string at_arrow = "@>"
to_string arrow_at = "<@"
to_string regex_match = "~"
to_string regex_i_match = "~*"
to_string regex_not_match = "!~"
to_string regex_not_i_match = "!~*"
