-- ===== src/Metrics/Pruning.antt =====
-- `PruningMetrics` of fdapquery-physical-plan/src/metrics.rs.
use fdapquery.Base.{ℕ, ◌+◌, ◌-◌, ◌^◌}
use fdapquery.Metrics.Count.{wrap}

pub record PruningMetrics : Type 0 where
  pub pruned : ℕ
  pub matched : ℕ
  pub fully_matched : ℕ

unfoldable pub empty : PruningMetrics
empty = record { pruned = 0; matched = 0; fully_matched = 0 }

unfoldable pub add_pruned : PruningMetrics → ℕ → PruningMetrics
add_pruned p n = record p { pruned = wrap (p.pruned + n) }

unfoldable pub add_matched : PruningMetrics → ℕ → PruningMetrics
add_matched p n = record p { matched = wrap (p.matched + n) }

unfoldable pub add_fully_matched : PruningMetrics → ℕ → PruningMetrics
add_fully_matched p n = record p { fully_matched = wrap (p.fully_matched + n) }

-- `fetch_sub` wraps below 0.
unfoldable pub subtract_matched : PruningMetrics → ℕ → PruningMetrics
subtract_matched p n = record p { matched = wrap (p.matched + 2 ^ 64 - n) }
