-- ===== src/Metrics/Count.antt =====
-- `Count` of fdapquery-physical-plan/src/metrics.rs: an atomic `usize`, which wraps at 2^64.
use fdapquery.Base.{ℕ, ◌+◌, ◌%◌, ◌^◌}

-- A `usize`.
abbrev pub wrap : ℕ → ℕ
wrap n = n % 2 ^ 64

pub record Count : Type 0 where
  pub value : ℕ

unfoldable pub empty : Count
empty = record { value = 0 }

unfoldable pub add : Count → ℕ → Count
add c n = record { value = wrap (c.value + n) }
