-- ===== src/Execution/Limit.antt =====
-- tinyolap/src/execution/limit.rs: at most `limit` rows of the child. A child is the batches, or
-- errors, that its calls give before the `None`.
pub mod Rows
use tiny_olap.Base.{
  ℕ, ◌+◌, ◌-◌, List, [], ◌∷◌, ◌≡◌, take, drop, length, leb, Option, none, some, Bool, true, false,
  if◌then◌else◌, ok, err, panic, stuck,
}
use tiny_olap.Execution.Batch.{Outcome}

-- What the operator needs of arrow's RecordBatch: its rows, and `slice` of an offset and a length.
pub record Batches (B Row : Type 0) : Type 0 where
  pub rows : B → List Row
  pub slice : B → ℕ → ℕ → B

-- What arrow documents of `slice`.
pub record IsBatches {B Row : Type 0} (batches : Batches B Row) : Type 0 where
  pub rows-slice :
      (b : B) (offset n : ℕ)
      → batches.rows (batches.slice b offset n) ≡ take n (drop offset (batches.rows b))

pub record LimitExec (B : Type 0) : Type 0 where
  pub limit : ℕ
  pub emitted : ℕ
  pub child : List (Outcome B)

unfoldable pub new : {B : Type 0} → ℕ → List (Outcome B) → LimitExec B
new n child = record { limit = n; emitted = 0; child = child }

module _ {B Row : Type 0} (batches : Batches B Row) where
  -- The batch fits under the limit, or is cut at what remains.
  unfoldable pub pass_or_cut : LimitExec B → B → List (Outcome B) → Option (Outcome B) × LimitExec B
  pass_or_cut s batch rest =
      let remaining = s.limit - s.emitted in
      let rows = length (batches.rows batch) in
      if leb rows remaining
      then (some (ok batch), record { limit = s.limit; emitted = s.emitted + rows; child = rest })
      else (
        some (ok (batches.slice batch 0 remaining)),
        record { limit = s.limit; emitted = s.limit; child = rest },
      )

  unfoldable pub pull : LimitExec B → List (Outcome B) → Option (Outcome B) × LimitExec B
  pull s [] = (none, s)
  pull s (ok batch ∷ rest) = pass_or_cut s batch rest
  pull s (err e ∷ rest) =
      (some (err e), record { limit = s.limit; emitted = s.emitted; child = rest })
  pull s (panic ∷ rest) =
      (some panic, record { limit = s.limit; emitted = s.emitted; child = rest })
  pull s (stuck ∷ rest) =
      (some stuck, record { limit = s.limit; emitted = s.emitted; child = rest })

  unfoldable pub next_batch : LimitExec B → Option (Outcome B) × LimitExec B
  next_batch s = if leb s.limit s.emitted then (none, s) else pull s s.child
