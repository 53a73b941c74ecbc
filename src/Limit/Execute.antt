-- ===== src/Limit/Execute.antt =====
-- fdapquery-physical-plan/src/global_limit_exec.rs, local_limit_exec.rs: what the limit operators
-- return.
use fdapquery.Base.{
  ℕ, ◌-◌, ◌≡◌, refl, ap, ◌⊎◌, inl, inr, none, some, [], ◌∷◌, length, take, drop, ◌==◌,
  if◌then◌else◌,
}
use fdapquery.External.{External}
use fdapquery.Errors.{FdapQueryError}
use fdapquery.Limit.{
  Batches, Stream, GlobalLimitExec, LocalLimitExec, emit, window, prefix, budget, map_ok,
  execute_global, execute_local,
}
use fdapquery.Limit.Windows.{ok_rows, failure, filled, ok_rows-window, failure-window}

module _ ⦃ext : External⦄ ⦃arrow : Batches⦄ where
  prefix-window : (s : Stream) (remaining : ℕ) → prefix remaining s ≡ window 0 remaining s
  unfolding prefix window
  prefix-window [] remaining = refl
  prefix-window (inl e ∷ s) remaining = refl
  prefix-window (inr b ∷ s) remaining =
      ap (λ rest. if remaining == 0 then [] else emit remaining b (arrow.num_rows b) rest)
        (prefix-window s (remaining - arrow.num_rows b))

  -- A global limit over an input stream returns a stream of the rows at the positions from `skip`
  -- on, `fetch` of them at most (2^64 - 1 where there is no `fetch`), which fails with the input's
  -- error unless that many rows come before it.
  pub execute_global-window :
      (plan : GlobalLimitExec) (s : Stream)
      → plan.input 0 ≡ inr s
      → (out : Stream) × (execute_global plan 0 ≡ inr out)
        × (ok_rows out ≡ take (budget plan.fetch) (drop plan.skip (ok_rows s)))
        × (failure out ≡ (
            if filled plan.skip (budget plan.fetch) (length (ok_rows s)) then none else failure s))
  unfolding execute_global
  execute_global-window plan s h = (
    window plan.skip (budget plan.fetch) s,
    ap (map_ok (window plan.skip (budget plan.fetch))) h,
    ok_rows-window s plan.skip (budget plan.fetch),
    failure-window s plan.skip (budget plan.fetch),
  )

  map_ok-prefix :
      (n : ℕ) (r : FdapQueryError ⊎ Stream) → map_ok (prefix n) r ≡ map_ok (window 0 n) r
  map_ok-prefix n (inl e) = refl
  map_ok-prefix n (inr s) = ap inr (prefix-window s n)

  -- A local limit returns what a global limit without a skip does, whatever its input returns.
  pub execute_local-global :
      (plan : LocalLimitExec)
      → execute_local plan 0
        ≡ execute_global (record { input = plan.input; skip = 0; fetch = some plan.fetch }) 0
  unfolding execute_local execute_global
  execute_local-global plan = map_ok-prefix plan.fetch (plan.input 0)
