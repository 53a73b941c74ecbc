-- ===== src/Metrics/Gauge.antt =====
-- `Gauge` of fdapquery-physical-plan/src/metrics.rs: an atomic `usize` that goes up and down.
use fdapquery.Base.{ℕ, ◌+◌, ◌-◌, ◌^◌, ltb, if◌then◌else◌}
use fdapquery.Metrics.Count.{wrap}

pub record Gauge : Type 0 where
  pub value : ℕ

unfoldable pub empty : Gauge
empty = record { value = 0 }

unfoldable pub add : Gauge → ℕ → Gauge
add g n = record { value = wrap (g.value + n) }

-- `fetch_sub` wraps below 0.
unfoldable pub sub : Gauge → ℕ → Gauge
sub g n = record { value = wrap (g.value + 2 ^ 64 - n) }

unfoldable pub set_max : Gauge → ℕ → Gauge
set_max g n = if ltb g.value n then record { value = n } else g

-- Returns the value before.
unfoldable pub set : Gauge → ℕ → Gauge × ℕ
set g n = (record { value = n }, g.value)
