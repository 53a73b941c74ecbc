-- ===== src/Metrics.antt =====
-- fdapquery-physical-plan/src/metrics.rs: operator metrics.
pub mod Count
pub mod Gauge
pub mod Time
pub mod Timestamp
pub mod Pruning
pub mod Ratio
pub mod Value
pub mod Metric
pub mod Set
pub mod Kinds
pub mod Sums
pub mod Totals
pub mod ByName
pub mod Keys
pub mod Coherent
pub mod Aggregated
pub mod Units
pub mod Moments
pub mod Filters
