-- ===== src/Tests/LimitTests.antt =====
-- The theorems about limits at concrete inputs.
use fdapquery.Base.{ℕ, ◌≡◌, refl, inl, inr, none, some, List, [], ◌∷◌, length, take, drop}
use fdapquery.Errors.{internal}
use fdapquery.Limit.{
  Batches, Stream, GlobalLimitExec, LocalLimitExec, execute_global, execute_local,
}
use fdapquery.Limit.Windows.{ok_rows, failure}
use fdapquery.Limit.Execute.{execute_global-window, execute_local-global}
use fdapquery.Tests.Sample.{sample}

-- Batches of numbers.
instance abbrev batches : Batches
batches = record {
  RecordBatch = List ℕ;
  Row = ℕ;
  rows = λ b. b;
  num_rows = λ b. length b;
  slice = λ b offset len. take len (drop offset b);
  num_rows-rows = λ b. refl;
  rows-slice = λ b offset len h. refl;
}

abbrev two_batches : Stream
two_batches = inr (1 ∷ 2 ∷ 3 ∷ []) ∷ inr (4 ∷ 5 ∷ []) ∷ inl (internal "lost") ∷ []

abbrev middle : GlobalLimitExec
middle = record { input = λ partition. inr two_batches; skip = 2; fetch = some 2 }

execute_global-window_example :
    (out : Stream) × (execute_global middle 0 ≡ inr out)
    × (ok_rows out ≡ 3 ∷ 4 ∷ [])
    × (failure out ≡ none)
unfolding take drop ok_rows failure
execute_global-window_example = execute_global-window middle two_batches refl

abbrev first_two : LocalLimitExec
first_two = record { input = λ partition. inr two_batches; fetch = 2 }

execute_local-global_example :
    execute_local first_two 0
    ≡ execute_global (record { input = first_two.input; skip = 0; fetch = some 2 }) 0
execute_local-global_example = execute_local-global first_two
