-- ===== src/Logical.antt =====
-- tinyolap/src/logical_plan: the logical plan and the rules of its optimizer.
pub mod Plan
pub mod Folding
pub mod Coercion
pub mod Optimizer
pub mod Meaning
pub mod Correctness
mod Examples
