-- ===== src/Tests/DistributedTests.antt =====
-- The scheduler on two executors, and its theorems at concrete inputs.
use fdapquery.Base.{ℕ, ◌≡◌, refl, String, List, [], ◌∷◌, ◌++◌, none, ℤ, inr, Bool}
use fdapquery.Errors.{ok}
use fdapquery.Distributed.{
  Operators, ExecutorConfig, DistributedConfig, ShuffleLocation, AggregateMode, AggregateFields,
  ExecutionPlan, Children, Task, QueryStage, partition_count, partial_stage, plan,
  update_shuffle_locations,
}
use fdapquery.Distributed.Scheduler.{ExecutorClient, execute}
use fdapquery.Distributed.Stages.{staged, Refused, execute-staged, execute-Refused}
use fdapquery.Tests.Sample.{sample}

instance abbrev operators : Operators
operators = record { PhysicalExpr = String; AggregateExpr = String; Operator = String }

abbrev location : ExecutorConfig → Task → ShuffleLocation
location executor task = record {
  job_uuid = task.job_uuid;
  stage_id = task.stage_id;
  partition_id = task.partition_id;
  executor_id = executor.id;
  executor_host = executor.host;
  executor_port = executor.port;
}

-- Executors that keep a log of what they ran, and answer the final task with its stage.
instance abbrev logging : ExecutorClient
logging = record {
  State = List (String × ℕ);
  Batches = ℕ;
  execute_task = λ log executor task.
      (log ++ (executor.id, task.partition_id) ∷ [], inr (location executor task ∷ []));
  execute_final_task = λ log executor task. (log ++ (executor.id, 0) ∷ [], inr task.stage_id);
}

abbrev executor_of : String → ExecutorConfig
executor_of id = record { id = id; host = "localhost"; port = ℤ.pos 50051 }

abbrev cluster : DistributedConfig
cluster = record {
  executors = executor_of "a" ∷ executor_of "b" ∷ [];
  shuffle_dir = "/tmp";
  default_partitions = ℤ.pos 3;
}

abbrev empty_cluster : DistributedConfig
empty_cluster = record cluster { executors = [] }

abbrev scan : ExecutionPlan
scan = ExecutionPlan.other_exec "scan" Children.no_children

abbrev sum_by_state : AggregateFields
sum_by_state = record {
  mode = AggregateMode.single;
  group_by = record {
    expr = ("state", "state") ∷ [];
    null_expr = [];
    groups = [];
    has_grouping_set = Bool.false;
  };
  aggr_expr = "sum" ∷ [];
  filter_expr = none ∷ [];
  schema = [];
  input_schema = [];
}

abbrev grouped : ExecutionPlan
grouped = ExecutionPlan.aggregate_exec sum_by_state scan

-- Three partitions in turn on the two executors, and then the final task on the first.
execute_log :
    execute cluster "job" grouped [] ≡ (("a", 0) ∷ ("b", 1) ∷ ("a", 2) ∷ ("a", 0) ∷ [], ok 1)
unfolding execute plan partition_count update_shuffle_locations
execute_log = refl

execute-staged_example : execute cluster "job" grouped [] ≡ staged cluster "job" grouped []
execute-staged_example = execute-staged cluster "job" grouped []

execute-Refused_example : Refused [] (execute empty_cluster "job" grouped [])
execute-Refused_example = execute-Refused empty_cluster "job" grouped [] refl

abbrev writer : QueryStage
unfolding partial_stage
writer = partial_stage cluster sum_by_state scan "job"
