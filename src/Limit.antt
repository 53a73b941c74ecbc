-- ===== src/Limit.antt =====
-- fdapquery-physical-plan/src/global_limit_exec.rs, local_limit_exec.rs: the operators that cut a
-- stream of record batches. A stream is the list of what its `next` returns, and `try_stream!` ends
-- after the first error that it passes on.
pub mod Windows
pub mod Execute
use fdapquery.Base.{
  ℕ, zero, ◌+◌, ◌-◌, ◌^◌, ◌≤◌, ◌≡◌, Option, none, some, List, [], ◌∷◌, ◌++◌, ◌⊎◌, inl, inr, length,
  String, concat, decimal, take, drop, leb, ◌==◌, if◌then◌else◌,
}
use fdapquery.External.{External}
use fdapquery.Errors.{FdapQueryError, internal}

-- arrow's `RecordBatch`: its rows, `num_rows`, and the slices within it.
pub record Batches : Type 1 where
  pub RecordBatch : Type 0
  pub Row : Type 0
  pub rows : RecordBatch → List Row
  pub num_rows : RecordBatch → ℕ
  pub slice : RecordBatch → (offset len : ℕ) → RecordBatch
  pub num_rows-rows : (b : RecordBatch) → num_rows b ≡ length (rows b)
  pub rows-slice :
      (b : RecordBatch) (offset len : ℕ)
      → offset + len ≤ num_rows b
      → rows (slice b offset len) ≡ take len (drop offset (rows b))

module _ ⦃ext : External⦄ ⦃arrow : Batches⦄ where
  abbrev pub Stream : Type 0
  Stream = List (FdapQueryError ⊎ arrow.RecordBatch)

  pub record GlobalLimitExec : Type 0 where
    pub input : ℕ → FdapQueryError ⊎ Stream
    pub skip : ℕ
    pub fetch : Option ℕ

  pub record LocalLimitExec : Type 0 where
    pub input : ℕ → FdapQueryError ⊎ Stream
    pub fetch : ℕ

  -- "Then emit at most `remaining` rows from what's left", and go on with the rest of the input.
  unfoldable pub emit : (remaining : ℕ) → arrow.RecordBatch → (rows : ℕ) → Stream → Stream
  emit remaining batch rows rest =
      if leb rows remaining then inr batch ∷ rest else inr (arrow.slice batch 0 remaining) ∷ []

  -- `while remaining > 0` of `GlobalLimitExec`.
  unfoldable pub window : (skip remaining : ℕ) → Stream → Stream
  unfolding emit
  window skip remaining [] = []
  window skip remaining (inl e ∷ input) = if remaining == 0 then [] else inl e ∷ []
  window skip remaining (inr batch ∷ input) =
      let rows = arrow.num_rows batch in
      let kept = rows - skip in
      let whole = window 0 (remaining - rows) input in
      let skipped = window (skip - rows) remaining input in
      let sliced = window 0 (remaining - kept) input in
      if remaining == 0
      then []
      else if skip == 0
      then emit remaining batch rows whole
      else if leb rows skip
      then skipped
      else emit remaining (arrow.slice batch skip kept) kept sliced

  -- `while remaining > 0` of `LocalLimitExec`.
  unfoldable pub prefix : (remaining : ℕ) → Stream → Stream
  unfolding emit
  prefix remaining [] = []
  prefix remaining (inl e ∷ input) = if remaining == 0 then [] else inl e ∷ []
  prefix remaining (inr batch ∷ input) =
      let rows = arrow.num_rows batch in
      let whole = prefix (remaining - rows) input in
      if remaining == 0 then [] else emit remaining batch rows whole

  -- `fetch.unwrap_or(usize::MAX)`.
  abbrev pub budget : Option ℕ → ℕ
  budget none = 2 ^ 64 - 1
  budget (some n) = n

  abbrev pub map_ok : {A B E : Type 0} → (A → B) → E ⊎ A → E ⊎ B
  map_ok f (inl e) = inl e
  map_ok f (inr a) = inr (f a)

  out_of_range : String → ℕ → FdapQueryError
  out_of_range exec partition = internal (
      concat (
        exec ∷ " has 1 output partition; partition " ∷ decimal partition ∷ " is out of range" ∷ []))

  -- `ExecutionPlan::execute`.
  unfoldable pub execute_global : GlobalLimitExec → ℕ → FdapQueryError ⊎ Stream
  unfolding window out_of_range
  execute_global plan partition =
      if partition == 0
      then map_ok (window plan.skip (budget plan.fetch)) (plan.input 0)
      else inl (out_of_range "GlobalLimitExec" partition)

  unfoldable pub execute_local : LocalLimitExec → ℕ → FdapQueryError ⊎ Stream
  unfolding prefix out_of_range
  execute_local plan partition =
      if partition == 0
      then map_ok (prefix plan.fetch) (plan.input 0)
      else inl (out_of_range "LocalLimitExec" partition)
