-- ===== src/Distributed/Dispatch.antt =====
-- fdapquery-distributed/src/scheduler.rs: the tasks of a stage.
use fdapquery.Base.{
  ℕ, zero, suc, ◌+◌, ◌%◌, ◌<◌, String, ◌≡◌, refl, List, [], ◌∷◌, ◌++◌, length, get_elem?, some,
  arith,
}
use fdapquery.External.{External}
use fdapquery.Errors.{Outcome, ok, err, panic}
use fdapquery.Distributed.{Operators, ExecutorConfig, ShuffleLocation, Task, QueryStage}
use fdapquery.Distributed.Scheduler.{
  ExecutorClient, Run, return, ◌>>=◌, bind_outcome, task_of, call_task,
}

module _ {ℓ} {A : Type ℓ} where
  -- The element at a position, or that of an earlier round.
  abbrev pub nth : A → List A → ℕ → A
  nth d [] i = d
  nth d (x ∷ xs) zero = x
  nth d (x ∷ xs) (suc i) = nth d xs i

  pub get_elem?-nth :
      (d : A) (xs : List A) (i : ℕ) → i < length xs → get_elem? xs i ≡ some (nth d xs i)
  get_elem?-nth d [] i h = absurd (omega arith)
  get_elem?-nth d (x ∷ xs) zero h = refl
  get_elem?-nth d (x ∷ xs) (suc i) h = get_elem?-nth d xs i (omega arith)

module _ ⦃ext : External⦄ ⦃ops : Operators⦄ ⦃client : ExecutorClient⦄ where
  -- The tasks of the partitions from one on, each with its executor: one task for each partition,
  -- with the plan of the stage, and the executors in turn.
  abbrev pub assignments :
      ExecutorConfig
      → List ExecutorConfig
      → String
      → QueryStage
      → (partition_id rounds : ℕ) → List (ExecutorConfig × Task)
  assignments e es job_uuid stage p zero = []
  assignments e es job_uuid stage p (suc rounds) =
      (nth e (e ∷ es) (p % suc (length es)), task_of job_uuid stage p)
      ∷ assignments e es job_uuid stage (p + 1) rounds

  -- Tasks run one after another up to the first that fails, and the locations that they answer.
  abbrev pub run_tasks :
      List (ExecutorConfig × Task) → List ShuffleLocation → Run (List ShuffleLocation)
  run_tasks [] all_locations = return all_locations
  run_tasks ((executor, task) ∷ tasks) all_locations =
      call_task executor task >>= (λ locations. run_tasks tasks (all_locations ++ locations))

  pub bind_outcome_cong :
      {A B : Type 0} (s : client.State) (o : Outcome A) (f g : A → Run B)
      → ((a : A) (s : client.State) → f a s ≡ g a s)
      → bind_outcome s o f ≡ bind_outcome s o g
  bind_outcome_cong s (ok a) f g h = h a s
  bind_outcome_cong s (err e) f g h = refl
  bind_outcome_cong s (panic m) f g h = refl
