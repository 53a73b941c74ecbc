-- ===== src/Distributed/Stages.antt =====
-- fdapquery-distributed/src/scheduler.rs: what a job does as a whole.
use fdapquery.Base.{
  ℕ, zero, suc, String, ◌≡◌, refl, sym, ◌∙◌, ap, subst, List, [], ◌∷◌, append_nil, if◌then◌else◌,
}
use fdapquery.External.{External}
use fdapquery.Errors.{Outcome, ok, err, panic}
use fdapquery.Distributed.{
  Operators, DistributedConfig, ShuffleLocation, ExecutionPlan, AggregateFields, partition_count,
  QueryStage, new_stage, with_dependencies, with_partition_count, as_final_stage, partial_stage,
  final_stage, plan, substitute_shuffle_reader, update_shuffle_locations,
}
use fdapquery.Distributed.Scheduler.{
  ExecutorClient, Run, ◌>>=◌, rounds_of, execute_partitions, execute_stage, execute_final_stage,
  choose, sort_stages, updated_stage, check_dependencies, input_locations, locations_of, run_stages,
  execute,
}
use fdapquery.Distributed.Dispatch.{bind_outcome_cong}

module _ ⦃ext : External⦄ ⦃ops : Operators⦄ ⦃client : ExecutorClient⦄ where
  -- A job in stages: an aggregate is computed partially on the partitions, and then finally from all
  -- their locations; any other plan is one final stage.
  abbrev pub staged : DistributedConfig → String → ExecutionPlan → Run client.Batches
  staged config job_uuid (ExecutionPlan.aggregate_exec aggregate input) =
      execute_stage config job_uuid (partial_stage config aggregate input job_uuid)
      >>= (λ locations. execute_final_stage config job_uuid (final_stage aggregate locations))
  staged config job_uuid p = execute_final_stage config job_uuid (as_final_stage (new_stage 0 p))

  updated_stage-final :
      (aggregate : AggregateFields) (locations : List ShuffleLocation)
      → updated_stage (final_stage aggregate []) locations ≡ final_stage aggregate locations
  unfolding updated_stage final_stage update_shuffle_locations substitute_shuffle_reader
  updated_stage-final aggregate [] = refl
  updated_stage-final aggregate (l ∷ ls) = refl

  abbrev finish :
      DistributedConfig
      → String
      → List ShuffleLocation
      → client.State
      → QueryStage
      → client.State × Outcome client.Batches
  finish config job_uuid locations s stage =
      (if stage.is_final_stage
          then execute_final_stage config job_uuid stage
          else (execute_stage config job_uuid stage >>= (λ more.
              run_stages config job_uuid [] ((stage.stage_id, more) ∷ (0, locations) ∷ []))))
        s

  run_stages-final :
      (config : DistributedConfig) (job_uuid : String) (aggregate : AggregateFields)
      (locations : List ShuffleLocation) (s : client.State)
      → run_stages config job_uuid (final_stage aggregate [] ∷ []) ((0, locations) ∷ []) s
        ≡ execute_final_stage config job_uuid (final_stage aggregate locations) s
  unfolding run_stages check_dependencies input_locations locations_of final_stage with_dependencies
      as_final_stage new_stage
  run_stages-final config job_uuid aggregate locations s = ap (finish config job_uuid locations s) (
      ap (updated_stage (final_stage aggregate [])) (append_nil locations)
      ∙ updated_stage-final aggregate locations)

  -- A job does what its stages do, whatever the executors answer, and also where there are none. So
  -- two errors of the scheduler do not occur: the one for a dependency that has not completed, and
  -- the one for a plan without a final stage.
  pub execute-staged :
      (config : DistributedConfig) (job_uuid : String) (p : ExecutionPlan) (s : client.State)
      → execute config job_uuid p s ≡ staged config job_uuid p s
  unfolding execute plan sort_stages run_stages
  execute-staged config job_uuid (ExecutionPlan.aggregate_exec aggregate input) s =
      let run = execute_stage config job_uuid (partial_stage config aggregate input job_uuid) s in
      bind_outcome_cong run.0 run.1 _ _
        (λ locations s'. run_stages-final config job_uuid aggregate locations s')
  execute-staged config job_uuid _ s = refl

  -- Neither an answer nor a change of the executors.
  abbrev pub Refused : client.State → client.State × Outcome client.Batches → Type 0
  Refused s (s', ok a) = ⊥
  Refused s (s', err e) = s' ≡ s
  Refused s (s', panic m) = s' ≡ s

  refuses-aggregate :
      (config : DistributedConfig) (job_uuid : String) (aggregate : AggregateFields)
      (stage : QueryStage) (rounds : ℕ) (s : client.State)
      → config.executors ≡ []
      → Refused s (
          (execute_partitions config.executors job_uuid stage 0 rounds [] >>= (λ locations.
              execute_final_stage config job_uuid (final_stage aggregate locations)))
            s)
  unfolding execute_partitions execute_final_stage choose
  refuses-aggregate config job_uuid aggregate stage zero s h = rw h refl
  refuses-aggregate config job_uuid aggregate stage (suc rounds) s h = rw h refl

  -- Without executors a job is not answered, and no executor is asked for anything.
  pub execute-Refused :
      (config : DistributedConfig) (job_uuid : String) (p : ExecutionPlan) (s : client.State)
      → config.executors ≡ []
      → Refused s (execute config job_uuid p s)
  unfolding execute_final_stage execute_stage partial_stage with_partition_count
  execute-Refused config job_uuid (ExecutionPlan.aggregate_exec aggregate input) s h =
      subst (Refused s)
        (sym (execute-staged config job_uuid (ExecutionPlan.aggregate_exec aggregate input) s))
        (refuses-aggregate config job_uuid aggregate (partial_stage config aggregate input job_uuid)
          (rounds_of (partition_count config)) s h)
  execute-Refused config job_uuid p s h =
      subst (Refused s) (sym (execute-staged config job_uuid p s)) (rw h refl)
