-- ===== src/Physical.antt =====
-- tinyolap/src/physical_plan: the physical plan, its making from the logical plan, and its rules.
pub mod Plan
pub mod Lower
pub mod Optimizer
mod Examples
