-- ===== src/Execution.antt =====
-- tinyolap/src/execution: the operators that a physical plan is run by.
pub mod Batch
pub mod Predicate
pub mod ZoneMap
pub mod Limit
pub mod WorkSource
pub mod Scan
pub mod Filter
pub mod Project
pub mod Builder
pub mod Aggregation
mod Examples
mod OperatorExamples
