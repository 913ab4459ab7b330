-- ===== src/Execution/Filter.antt =====
-- tinyolap/src/execution/filter.rs: the rows of the child that pass the predicate. A child is the
-- batches, or errors, that its calls give before the `None`.
pub mod Rows
use tiny_olap.Base.{
  ℕ, List, [], ◌∷◌, Bool, ltb, Option, none, some, if◌then◌else◌, ok, err, panic, stuck, ◌>>=◌,
}
use tiny_olap.Physical.Plan.{PhysicalExpr}
use tiny_olap.Execution.Batch.{Arrow, Batch, Mask, Outcome}
use tiny_olap.Execution.Predicate.{evaluate_predicate}

pub record FilterExec : Type 0 where
  pub predicate : PhysicalExpr
  pub child : List (Outcome Batch)

-- `filter_record_batch` is arrow's kernel, `num_rows` the number of rows of a batch.
module _ (arrow : Arrow) (filter_record_batch : Batch → Mask → Outcome Batch)
    (num_rows : Batch → ℕ) where
  -- The mask, then the rows.
  unfoldable pub filter_batch : PhysicalExpr → Batch → Outcome Batch
  filter_batch predicate batch =
      evaluate_predicate arrow predicate batch >>= λ mask. filter_record_batch batch mask

  -- An empty batch is passed over: the answer is that of the `later` calls of the child.
  unfoldable pub answer_or_later :
      PhysicalExpr
      → List (Outcome Batch)
      → Outcome Batch
      → Option (Outcome Batch) × FilterExec
      → Option (Outcome Batch) × FilterExec
  answer_or_later predicate rest (ok filtered) later =
      if ltb 0 (num_rows filtered)
      then (some (ok filtered), record { predicate = predicate; child = rest })
      else later
  answer_or_later predicate rest (err e) later =
      (some (err e), record { predicate = predicate; child = rest })
  answer_or_later predicate rest panic later =
      (some panic, record { predicate = predicate; child = rest })
  answer_or_later predicate rest stuck later =
      (some stuck, record { predicate = predicate; child = rest })

  -- The loop over the batches of the child.
  unfoldable pub pull : PhysicalExpr → List (Outcome Batch) → Option (Outcome Batch) × FilterExec
  pull predicate [] = (none, record { predicate = predicate; child = [] })
  pull predicate (ok batch ∷ rest) =
      let later = pull predicate rest in
      answer_or_later predicate rest (filter_batch predicate batch) later
  pull predicate (err e ∷ rest) = (some (err e), record { predicate = predicate; child = rest })
  pull predicate (panic ∷ rest) = (some panic, record { predicate = predicate; child = rest })
  pull predicate (stuck ∷ rest) = (some stuck, record { predicate = predicate; child = rest })

  unfoldable pub next_batch : FilterExec → Option (Outcome Batch) × FilterExec
  next_batch s = pull s.predicate s.child
