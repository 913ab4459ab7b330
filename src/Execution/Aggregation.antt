-- ===== src/Execution/Aggregation.antt =====
-- tinyolap/src/execution/aggregation/mod.rs: batches of arrow arrays, and the trait of accumulators.
pub mod Slots
pub mod Count
pub mod Sum
pub mod Extremum
pub mod Avg
pub mod Groups
pub mod Exec
mod Examples
use tiny_olap.Base.{
  ℕ, List, [], ◌∷◌, ◌++◌, Option, none, some, bytes_eq, if◌then◌else◌, Result, ok, err, panic,
  stuck,
}
use tiny_olap.Catalog.{Name, DataType}
use tiny_olap.Execution.Batch.{Outcome}

-- `Col` is arrow's ArrayRef.
pub record RecordBatch (Col : Type 0) : Type 0 where
  pub num_rows : ℕ
  pub columns : List (Name × Col)

unfoldable pub column_by_name : {Col : Type 0} → Name → List (Name × Col) → Option Col
column_by_name name [] = none
column_by_name name ((n, col) ∷ cols) =
    if bytes_eq n name then some col else column_by_name name cols

-- The struct of a sum and a count is what a partial average gives.
pub data FieldType : Type 0 where
  column_type : DataType → FieldType
  sum_and_count : FieldType

pub record Field : Type 0 where
  pub name : Name
  pub data_type : FieldType

-- What a method that takes `&mut self` and returns `Result<(), ExecutionError>` gives, and the state
-- that it leaves, on an error too.
abbrev pub Answer : Type 0 → Type 0
Answer S = Outcome (Unit {0}) × S

-- `Ok(())` with the new state, or the failure with the old one.
unfoldable pub settle : {A S : Type 0} → (A → S) → S → Outcome A → Answer S
settle f s (ok a) = (ok tt, f a)
settle f s (err e) = (err e, s)
settle f s panic = (panic, s)
settle f s stuck = (stuck, s)

-- `?` between two steps of such a method.
unfoldable pub and_then : {S : Type 0} → Answer S → (S → Answer S) → Answer S
and_then (ok u, s) f = f s
and_then (err e, s) f = (err e, s)
and_then (panic, s) f = (panic, s)
and_then (stuck, s) f = (stuck, s)

-- `expect` and `unwrap`.
unfoldable pub expect : {A : Type 0} → Option A → Outcome A
expect none = panic
expect (some a) = ok a

pub record Accumulator (Col S : Type 0) : Type 0 where
  pub update : RecordBatch Col → List ℕ → ℕ → S → Answer S
  pub merge : RecordBatch Col → List ℕ → ℕ → S → Answer S
  pub materialize : S → Col × S
  pub output_field : S → Field
  pub ensure_capacity : ℕ → S → S
