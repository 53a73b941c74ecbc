-- ===== src/Distributed.antt =====
-- fdapquery-distributed/src/: distributed_config.rs, query_stage.rs and distributed_planner.rs, with
-- the physical operators that the planner takes apart and builds (fdapquery-physical-plan/src/
-- aggregate_exec.rs, aggregates.rs, shuffle_reader_exec.rs, shuffle_writer_exec.rs, task.rs). Any
-- other operator is itself and its children.
pub mod Scheduler
pub mod Dispatch
pub mod Stages
use fdapquery.Base.{
  ℕ, suc, ◌+◌, ◌-◌, ◌%◌, ◌^◌, String, Bool, true, false, Option, none, some, List, [], ◌∷◌, map,
  length, ℤ, ltb, if◌then◌else◌,
}
use fdapquery.External.{External}

-- The implementors of the traits `PhysicalExpr`, `AggregateExpr` and `ExecutionPlan`.
pub record Operators : Type 1 where
  pub PhysicalExpr : Type 0
  pub AggregateExpr : Type 0
  pub Operator : Type 0

pub record ExecutorConfig : Type 0 where
  pub id : String
  pub host : String
  pub port : ℤ

pub record DistributedConfig : Type 0 where
  pub executors : List ExecutorConfig
  pub shuffle_dir : String
  pub default_partitions : ℤ

-- `n as i32`.
as_i32 : ℕ → ℤ
as_i32 n = let m = n % 2 ^ 32 in if ltb m (2 ^ 31) then ℤ.pos m else ℤ.negsuc (2 ^ 32 - (m + 1))

unfoldable pub partition_count : DistributedConfig → ℤ
unfolding as_i32
partition_count config = elim config.default_partitions [
  | ℤ.pos (suc n) ↦ ℤ.pos (suc n)
  | _ ↦ as_i32 (length config.executors)
]

pub record ShuffleLocation : Type 0 where
  pub job_uuid : String
  pub stage_id : ℕ
  pub partition_id : ℕ
  pub executor_id : String
  pub executor_host : String
  pub executor_port : ℤ

pub data AggregateMode : Type 0 where
  partial final final_partitioned single single_partitioned partial_reduce : AggregateMode

module _ ⦃ext : External⦄ ⦃ops : Operators⦄ where
  pub record PhysicalGroupBy : Type 0 where
    pub expr : List (ops.PhysicalExpr × String)
    pub null_expr : List (ops.PhysicalExpr × String)
    pub groups : List (List Bool)
    pub has_grouping_set : Bool

  unfoldable pub input_exprs : PhysicalGroupBy → List ops.PhysicalExpr
  input_exprs group = map (λ e. e.0) group.expr

  -- The fields of an `AggregateExec` but its input.
  pub record AggregateFields : Type 0 where
    pub mode : AggregateMode
    pub group_by : PhysicalGroupBy
    pub aggr_expr : List ops.AggregateExpr
    pub filter_expr : List (Option ops.PhysicalExpr)
    pub schema : ext.Schema
    pub input_schema : ext.Schema

  -- The fields of a `ShuffleWriterExec` but its input.
  pub record WriterFields : Type 0 where
    pub partition_expr : List ops.PhysicalExpr
    pub job_uuid : String
    pub stage_id : ℕ
    pub partition_count : ℤ

  mutual
    pub data ExecutionPlan : Type 0 where
      aggregate_exec : AggregateFields → ExecutionPlan → ExecutionPlan
      shuffle_writer_exec : WriterFields → ExecutionPlan → ExecutionPlan
      shuffle_reader_exec : ext.Schema → List ShuffleLocation → ExecutionPlan
      other_exec : ops.Operator → Children → ExecutionPlan

    pub data Children : Type 0 where
      no_children : Children
      child : ExecutionPlan → Children → Children

  pub record Task : Type 0 where
    pub job_uuid : String
    pub stage_id : ℕ
    pub task_id : ℕ
    pub partition_id : ℕ
    pub plan : ExecutionPlan

  pub record QueryStage : Type 0 where
    pub stage_id : ℕ
    pub plan : ExecutionPlan
    pub dependencies : List ℕ
    pub partition_count : ℤ
    pub is_final_stage : Bool

  unfoldable pub new_stage : ℕ → ExecutionPlan → QueryStage
  new_stage stage_id plan = record {
    stage_id = stage_id;
    plan = plan;
    dependencies = [];
    partition_count = ℤ.pos 1;
    is_final_stage = false;
  }

  unfoldable pub with_dependencies : QueryStage → List ℕ → QueryStage
  with_dependencies stage deps = record stage { dependencies = deps }

  unfoldable pub with_partition_count : QueryStage → ℤ → QueryStage
  with_partition_count stage n = record stage { partition_count = n }

  unfoldable pub as_final_stage : QueryStage → QueryStage
  as_final_stage stage = record stage { is_final_stage = true }

  -- `vec![None; n_aggrs]`.
  no_filters : List ops.AggregateExpr → List (Option ops.PhysicalExpr)
  no_filters aggr_expr = map (λ e. none) aggr_expr

  unfoldable pub partial_stage :
      DistributedConfig → AggregateFields → ExecutionPlan → String → QueryStage
  unfolding new_stage with_partition_count no_filters input_exprs
  partial_stage config aggregate input job_uuid =
      with_partition_count
        (new_stage 0 (
          shuffle_writer_exec
            (record {
              partition_expr = input_exprs aggregate.group_by;
              job_uuid = job_uuid;
              stage_id = 0;
              partition_count = partition_count config;
            })
            (aggregate_exec
              (record aggregate {
                mode = AggregateMode.partial;
                filter_expr = no_filters aggregate.aggr_expr;
              })
              input)))
        (partition_count config)

  unfoldable pub final_stage : AggregateFields → List ShuffleLocation → QueryStage
  unfolding new_stage with_dependencies as_final_stage no_filters
  final_stage aggregate locations = as_final_stage (
      with_dependencies
        (new_stage 1 (
          aggregate_exec
            (record aggregate {
              mode = AggregateMode.final;
              filter_expr = no_filters aggregate.aggr_expr;
            })
            (shuffle_reader_exec aggregate.schema locations)))
        (0 ∷ []))

  -- `DistributedPlanner::plan`.
  unfoldable pub plan : DistributedConfig → ExecutionPlan → String → List QueryStage
  unfolding partial_stage final_stage new_stage as_final_stage
  plan config (aggregate_exec aggregate input) job_uuid =
      partial_stage config aggregate input job_uuid ∷ final_stage aggregate [] ∷ []
  plan config p job_uuid = as_final_stage (new_stage 0 p) ∷ []

  unfoldable mutual
    pub substitute_shuffle_reader : ExecutionPlan → List ShuffleLocation → ExecutionPlan
    substitute_shuffle_reader (aggregate_exec a input) locations =
        aggregate_exec a (substitute_shuffle_reader input locations)
    substitute_shuffle_reader (shuffle_writer_exec w input) locations =
        shuffle_writer_exec w (substitute_shuffle_reader input locations)
    substitute_shuffle_reader (shuffle_reader_exec schema old) locations =
        shuffle_reader_exec schema locations
    substitute_shuffle_reader (other_exec op children) locations =
        other_exec op (substitute_children children locations)

    pub substitute_children : Children → List ShuffleLocation → Children
    substitute_children no_children locations = no_children
    substitute_children (child p ps) locations =
        child (substitute_shuffle_reader p locations) (substitute_children ps locations)

  unfoldable pub update_shuffle_locations : QueryStage → List ShuffleLocation → QueryStage
  unfolding substitute_shuffle_reader
  update_shuffle_locations stage locations = record stage {
    plan = substitute_shuffle_reader stage.plan locations;
  }
