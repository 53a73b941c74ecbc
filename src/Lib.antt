-- ===== src/Lib.antt =====
-- fdapquery: a query engine on Arrow. A query is a logical plan (fdapquery-expr), which the
-- optimizer (fdapquery-optimizer) rewrites before it is lowered to physical operators
-- (fdapquery-physical-plan), which one process runs or the scheduler (fdapquery-distributed)
-- divides over executors. While they run, the operators record metrics, which are summed over the
-- partitions for the user.
--
-- Base: lists, tests, texts and sets of names that the other modules share, and library names.
--
-- External: what the program takes from other crates, as one record that the modules have as an
-- instance argument: arrow's types, fields, schemas and `Schema::project`, floating-point numbers
-- and their texts, chrono's dates. Its laws say that a new field has the name and type it is made
-- with, a new schema its fields, and that projecting a schema by indices in range gives those
-- fields.
--
-- Errors: fdapquery-common/src/error.rs. `Outcome` is the crates' `Result` with a third outcome for
-- a panic; `>>=` is `?`.
--
-- Scalar: fdapquery-common/src/scalar_value.rs, the variants of `ScalarValue`, `data_type`,
-- `is_null` and `Display`.
--
-- Operator: fdapquery-expr/src/operator.rs, every method.
--
-- Expr: fdapquery-expr/src/logical_expr.rs, sort.rs, aggregate_function.rs and expressions.rs:
-- `Expr`, with a list of expressions as a type of its own, `Expr::to_field` (Expr/Field) and
-- `Display` (Expr/Display).
--
-- Logical plans, in the module Plan: fdapquery-expr/src/logical_plan.rs, projection.rs, filter.rs,
-- aggregate.rs, join.rs, limit.rs and scan.rs: the plan nodes, `schema`, `children` and `format`.
-- Its child Scan is `TableScan`, with its schema derived from the source's and the projection. A
-- table source is its schema.
--
-- Optimizer: fdapquery-optimizer/src/optimizer.rs (`extract_columns`, `Optimizer::optimize`) and
-- projection_push_down_rule.rs (`push_down`). The set of requested names, a `&mut HashSet<String>`
-- in the program, is passed in and returned. Optimizer/Columns and Fields: what the fields of
-- expressions depend on. Sorted: what sorting names answers. Scans: the scans that the rule
-- narrows. Joins: the fields of joined schemas. Lookup: the whole rule. Total: where it answers.
-- Narrow: the plans that it changes.
--
-- Metrics: fdapquery-physical-plan/src/metrics.rs. Count, Gauge, Time, Timestamp, Pruning and Ratio
-- are the primitives: an atomic `usize` is a number modulo 2^64 with the wrap-around written out.
-- Value is `MetricValue`, over any implementor of `CustomMetricValue` and chrono's moments as a
-- strict total order. `Run` has the panic of `MetricValue::aggregate` as an outcome. Metric is
-- `Metric`, and Set is `MetricsSet`, a list of metrics; the hash map of `aggregate_by_name` is an
-- association list that is read in an order of the caller's choice. Kinds, Sums, Totals, ByName,
-- Keys, Coherent, Aggregated, Filters, Units and Moments hold the proofs.
--
-- Limit: fdapquery-physical-plan/src/global_limit_exec.rs and local_limit_exec.rs: `execute` of
-- both. A stream is the finite list of what its `next` returns, `Batches` is arrow's record batches
-- with the rows of a slice as its law. Limit/Windows: the rows and errors of a limited stream.
--
-- Accumulator: fdapquery-physical-expr/src/sum_expression.rs: the state of a SUM, `accumulate`,
-- `merge` and `scalar_add`, with the wrap-around of signed integers written out over their bits
-- (Accumulator/Wrapping). `+` on floating-point numbers is a parameter.
--
-- Distributed: fdapquery-distributed/src/distributed_config.rs, query_stage.rs,
-- distributed_planner.rs (`plan`, `update_shuffle_locations`), with the operators that the planner
-- takes apart. Any other operator is itself and its children, and `with_new_children` is taken to
-- keep it. Distributed/Scheduler is scheduler.rs: `execute`, `execute_stage` and
-- `execute_final_stage`, with the state of the executors behind an `ExecutorClient` passed along.
-- Stage and partition numbers are natural numbers, and the number of partitions an `i32`.
--
-- Arrow: what the program takes from arrow's arrays and batches, with their laws: a finished
-- builder's array has the type, the length, the nulls and the values that were appended, and a
-- batch is made of the columns that it was given. `Kind` is the array types that the program
-- supports.
--
-- Scalar/Arrays: the conversions of scalar_value.rs from and to arrays. Scalar/Builder:
-- fdapquery-common/src/arrow_vector_builder.rs.
--
-- Rows: rows of scalars read from batches and written to them
-- (fdapquery-physical-plan/src/hash_join_exec.rs, fdapquery-datatypes/src/record_batch.rs).
-- Rows/Read, Write and RoundTrip hold the proofs.
--
-- RowKey: fdapquery-physical-plan/src/row_key.rs. `Feed` is what a hasher is fed.
--
-- PhysicalExpr: fdapquery-physical-expr, the expressions, their `data_type` and `Display`.
--
-- PhysicalPlanner: fdapquery/src/physical_planner.rs, all of it. Tables are those of
-- fdapquery-catalog/src/in_memory_data_source.rs. Types: the types of planned expressions. Schemas:
-- the schemas of physical plans. Joins: the schema of a planned join beside its rows.
--
-- Join: `HashJoinExec::execute` of fdapquery-physical-plan/src/hash_join_exec.rs, over any two
-- inputs that answer a finite stream at each call. HashTable: the hash map, an association list
-- that is read in an order of the library's choice. Nested: the nested loop that the join is
-- compared with. Unmatched, Typed, Execute, Correct and Nulls hold the proofs.
--
-- ColumnarValue: fdapquery-physical-expr/src/columnar_value.rs, and `evaluate` of columns and
-- literals. Lengths: the lengths of the columns of values.
--
-- Shuffle: fdapquery-physical-plan/src/shuffle_writer_exec.rs and shuffle_reader_exec.rs. Manager
-- is fdapquery-execution/src/shuffle_manager.rs over a `Disk`: the file system and the crate
-- arrow-ipc, with the law that a file reads as it was written. The number of partitions is an
-- `i32`, and `as usize` and the remainder by it are written out. Files, Targets, Select, Pick,
-- Parts, Buffers, Written and RoundTrip hold the proofs, from one file to the whole shuffle.
--
-- Accumulator/Kinds: the accumulators of min_expression.rs, max_expression.rs, avg_expression.rs
-- and count_expression.rs (fdapquery-physical-expr), with the comparisons of
-- aggregate_expression.rs. What Rust does with floating-point numbers is a parameter.
-- Accumulator/Counts is about a COUNT in parts.
--
-- Aggregate: fdapquery-physical-plan/src/aggregate_exec.rs, `execute` in every mode, over any input
-- that answers a finite stream. Fold: its loops as one over rows. Groups: what its map holds.
-- Output and Correct: its result.
--
-- Every recursion is structural. The rounds of `decimal` in Base/Text are one more than the number
-- it prints, and a number has no more digits than that.
--
-- Not modelled: the other physical operators, the evaluation of physical expressions, the SQL front
-- end, sessions, serialization, and the Flight services. Of the metrics, the builder and the
-- baseline metrics, which share cells with the set they register in, and the texts. In errors, the
-- `Debug` texts of expressions inside a message are left out.
pub mod Base
pub mod External
pub mod Errors
pub mod Arrow
pub mod Operator
pub mod Scalar
pub mod Expr
pub mod Plan
pub mod Optimizer
pub mod Rows
pub mod ColumnarValue
pub mod Shuffle
pub mod Aggregate
pub mod RowKey
pub mod PhysicalExpr
pub mod PhysicalPlanner
pub mod Join
pub mod Metrics
pub mod Limit
pub mod Accumulator
pub mod Distributed
mod Tests
