-- ===== src/Tests.antt =====
-- Tests, and the theorems at concrete inputs.
mod Sample
mod SampleArrow
mod JoinTests
mod PlannerTests
mod ShuffleTests
mod AggregateTests
mod OptimizerTests
mod OperatorTests
mod MetricsTests
mod LimitTests
mod DistributedTests
mod AccumulatorTests
