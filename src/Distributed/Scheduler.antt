-- ===== src/Distributed/Scheduler.antt =====
-- fdapquery-distributed/src/scheduler.rs: the stages of a job, run one after another on the
-- executors. The implementor of `ExecutorClient` keeps a state; a job's identifier is an argument.
use fdapquery.Base.{
  ℕ, zero, suc, ◌+◌, ◌%◌, String, Option, none, some, List, [], ◌∷◌, ◌++◌, length, get_elem?,
  is_empty, ℤ, ◌==◌, leb, if◌then◌else◌, ◌⊎◌, inl, inr, concat, decimal,
}
use fdapquery.External.{External}
use fdapquery.Errors.{FdapQueryError, internal, Outcome, ok, err, panic}
use fdapquery.Distributed.{
  Operators, ExecutorConfig, DistributedConfig, ShuffleLocation, ExecutionPlan, Task, QueryStage,
  plan, update_shuffle_locations,
}

module _ ⦃ext : External⦄ ⦃ops : Operators⦄ where
  -- The trait `ExecutorClient`. A call changes the state of the executors.
  pub record ExecutorClient : Type 1 where
    pub State : Type 0
    pub Batches : Type 0
    pub execute_task :
        State → ExecutorConfig → Task → State × (FdapQueryError ⊎ List ShuffleLocation)
    pub execute_final_task : State → ExecutorConfig → Task → State × (FdapQueryError ⊎ Batches)

module _ ⦃ext : External⦄ ⦃ops : Operators⦄ ⦃client : ExecutorClient⦄ where
  abbrev pub Run : Type 0 → Type 0
  Run A = client.State → client.State × Outcome A

  abbrev pub return : {A : Type 0} → A → Run A
  return a s = (s, ok a)

  abbrev pub fail : {A : Type 0} → FdapQueryError → Run A
  fail e s = (s, err e)

  abbrev pub bind_outcome :
      {A B : Type 0} → client.State → Outcome A → (A → Run B) → client.State × Outcome B
  bind_outcome s (ok a) f = f a s
  bind_outcome s (err e) f = (s, err e)
  bind_outcome s (panic m) f = (s, panic m)

  -- `.await?`, and the sequence of two steps.
  infixl 5 ◌>>=◌
  abbrev pub ◌>>=◌ : {A B : Type 0} → Run A → (A → Run B) → Run B
  (r >>= f) s = bind_outcome (r s).0 (r s).1 f

  abbrev pub outcome : {A : Type 0} → FdapQueryError ⊎ A → Outcome A
  outcome (inl e) = err e
  outcome (inr a) = ok a

  unfoldable pub call_task : ExecutorConfig → Task → Run (List ShuffleLocation)
  call_task executor task s =
      let answer = client.execute_task s executor task in (answer.0, outcome answer.1)

  unfoldable pub call_final_task : ExecutorConfig → Task → Run client.Batches
  call_final_task executor task s =
      let answer = client.execute_final_task s executor task in (answer.0, outcome answer.1)

  -- `executors[partition_id % executors.len()]`: the remainder by 0 panics.
  unfoldable pub choose : List ExecutorConfig → ℕ → Run ExecutorConfig
  choose executors partition_id s =
      if length executors == 0
      then (s, panic "attempt to calculate the remainder with a divisor of zero")
      else elim (get_elem? executors (partition_id % length executors)) [
        | none ↦ (s, panic "index out of bounds")
        | some executor ↦ (s, ok executor)
      ]

  unfoldable pub task_of : String → QueryStage → ℕ → Task
  task_of job_uuid stage partition_id = record {
    job_uuid = job_uuid;
    stage_id = stage.stage_id;
    task_id = partition_id;
    partition_id = partition_id;
    plan = stage.plan;
  }

  -- The loop of `execute_stage` from a partition on, for so many partitions.
  unfoldable pub execute_partitions :
      List ExecutorConfig
      → String
      → QueryStage
      → (partition_id rounds : ℕ) → List ShuffleLocation
      → Run (List ShuffleLocation)
  unfolding choose call_task task_of
  execute_partitions executors job_uuid stage partition_id zero all_locations = return all_locations
  execute_partitions executors job_uuid stage partition_id (suc rounds) all_locations =
      choose executors partition_id >>= (λ executor.
        call_task executor (task_of job_uuid stage partition_id) >>= (λ locations.
          execute_partitions executors job_uuid stage (partition_id + 1) rounds
            (all_locations ++ locations)))

  -- How often `for _ in 0..n` runs.
  abbrev pub rounds_of : ℤ → ℕ
  rounds_of (ℤ.pos n) = n
  rounds_of (ℤ.negsuc n) = 0

  unfoldable pub execute_stage :
      DistributedConfig → String → QueryStage → Run (List ShuffleLocation)
  unfolding execute_partitions
  execute_stage config job_uuid stage =
      execute_partitions config.executors job_uuid stage 0 (rounds_of stage.partition_count) []

  unfoldable pub execute_final_stage : DistributedConfig → String → QueryStage → Run client.Batches
  unfolding task_of call_final_task
  execute_final_stage config job_uuid stage = elim config.executors [
    | [] ↦ fail (internal "DistributedConfig has no executors")
    | executor ∷ rest ↦ call_final_task executor (task_of job_uuid stage 0)
  ]

  -- `stages.sort_by_key(|s| s.stage_id)`.
  insert_stage : QueryStage → List QueryStage → List QueryStage
  insert_stage stage [] = stage ∷ []
  insert_stage stage (other ∷ stages) =
      if leb stage.stage_id other.stage_id
      then stage ∷ other ∷ stages
      else other ∷ insert_stage stage stages

  unfoldable pub sort_stages : List QueryStage → List QueryStage
  unfolding insert_stage
  sort_stages [] = []
  sort_stages (stage ∷ stages) = insert_stage stage (sort_stages stages)

  -- `locations_by_stage.get(stage_id)`, where the latest entry counts.
  unfoldable pub locations_of : List (ℕ × List ShuffleLocation) → ℕ → Option (List ShuffleLocation)
  locations_of [] stage_id = none
  locations_of ((k, locations) ∷ rest) stage_id =
      if k == stage_id then some locations else locations_of rest stage_id

  unfoldable pub check_dependencies :
      List (ℕ × List ShuffleLocation) → QueryStage → List ℕ → Run Unit
  check_dependencies done stage [] = return tt
  check_dependencies done stage (dep ∷ deps) = elim (locations_of done dep) [
    | none ↦ fail (
        internal (
          concat (
            "Stage "
            ∷ decimal stage.stage_id
            ∷ " depends on stage "
            ∷ decimal dep
            ∷ " which hasn't completed"
            ∷ [])))
    | some locations ↦ check_dependencies done stage deps
  ]

  abbrev pub or_default : Option (List ShuffleLocation) → List ShuffleLocation
  or_default none = []
  or_default (some locations) = locations

  unfoldable pub input_locations : List (ℕ × List ShuffleLocation) → List ℕ → List ShuffleLocation
  input_locations done [] = []
  input_locations done (dep ∷ deps) =
      or_default (locations_of done dep) ++ input_locations done deps

  unfoldable pub updated_stage : QueryStage → List ShuffleLocation → QueryStage
  updated_stage stage locations =
      if is_empty locations then stage else update_shuffle_locations stage locations

  -- The loop of `execute` over the stages.
  unfoldable pub run_stages :
      DistributedConfig
      → String
      → List QueryStage
      → List (ℕ × List ShuffleLocation)
      → Run client.Batches
  unfolding check_dependencies input_locations updated_stage execute_stage execute_final_stage
      locations_of
  run_stages config job_uuid [] done = fail (internal "Distributed plan had no final stage")
  run_stages config job_uuid (stage ∷ stages) done =
      check_dependencies done stage stage.dependencies >>= (λ checked.
        let updated = updated_stage stage (input_locations done stage.dependencies) in
        if updated.is_final_stage
        then execute_final_stage config job_uuid updated
        else (execute_stage config job_uuid updated >>= (λ locations.
            run_stages config job_uuid stages ((updated.stage_id, locations) ∷ done))))

  -- `Scheduler::execute`.
  unfoldable pub execute : DistributedConfig → String → ExecutionPlan → Run client.Batches
  unfolding run_stages sort_stages
  execute config job_uuid p = run_stages config job_uuid (sort_stages (plan config p job_uuid)) []
