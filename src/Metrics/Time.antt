-- ===== src/Metrics/Time.antt =====
-- `Time` of fdapquery-physical-plan/src/metrics.rs: accumulated nanoseconds. A duration is its
-- number of nanoseconds.
use fdapquery.Base.{ℕ, ◌+◌, ltb, if◌then◌else◌}
use fdapquery.Metrics.Count.{wrap}

pub record Time : Type 0 where
  pub nanos : ℕ

unfoldable pub empty : Time
empty = record { nanos = 0 }

-- `more_nanos.max(1)`.
abbrev pub at_least_one : ℕ → ℕ
at_least_one n = if ltb n 1 then 1 else n

unfoldable pub add_duration : Time → ℕ → Time
add_duration t duration = record { nanos = wrap (t.nanos + at_least_one (wrap duration)) }

unfoldable pub add : Time → Time → Time
unfolding add_duration
add t other = add_duration t other.nanos
