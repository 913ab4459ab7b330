-- ===== src/Execution/Project.antt =====
-- tinyolap/src/execution/project.rs: the columns that the projections name. A child is the batches, or
-- errors, that its calls give before the `None`.
pub mod Columns
use tiny_olap.Base.{ℕ, List, [], ◌∷◌, Option, none, some, ok, err, panic, stuck, ◌>>=◌}
use tiny_olap.Catalog.{Name}
use tiny_olap.Physical.Plan.{PhysicalExpr, compare_with, logical, column_ref, constant}
use tiny_olap.Execution.Batch.{Batch, Outcome, invalid_data}

pub record ProjectExec : Type 0 where
  pub projections : List PhysicalExpr
  pub child : List (Outcome Batch)

-- `index_of` of the schema and `project` of the batch are arrow's.
module _ (index_of : Batch → Name → Outcome ℕ) (project : Batch → List ℕ → Outcome Batch) where
  unfoldable pub projection_index : Batch → PhysicalExpr → Outcome ℕ
  projection_index batch (column_ref name) = index_of batch name
  projection_index batch (compare_with left op right) = err invalid_data
  projection_index batch (logical left op right) = err invalid_data
  projection_index batch (constant v) = err invalid_data

  -- `collect` ends with the first error.
  unfoldable pub projection_indices : Batch → List PhysicalExpr → Outcome (List ℕ)
  projection_indices batch [] = ok []
  projection_indices batch (e ∷ es) = do
    i ← projection_index batch e
    is ← projection_indices batch es
    ok (i ∷ is)

  unfoldable pub pull :
      List PhysicalExpr → List (Outcome Batch) → Option (Outcome Batch) × ProjectExec
  pull projections [] = (none, record { projections = projections; child = [] })
  pull projections (ok batch ∷ rest) = (
    some (projection_indices batch projections >>= λ indices. project batch indices),
    record { projections = projections; child = rest },
  )
  pull projections (err e ∷ rest) =
      (some (err e), record { projections = projections; child = rest })
  pull projections (panic ∷ rest) = (some panic, record { projections = projections; child = rest })
  pull projections (stuck ∷ rest) = (some stuck, record { projections = projections; child = rest })

  unfoldable pub next_batch : ProjectExec → Option (Outcome Batch) × ProjectExec
  next_batch s = pull s.projections s.child
