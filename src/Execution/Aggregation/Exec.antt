-- ===== src/Execution/Aggregation/Exec.antt =====
-- tinyolap/src/execution/aggregation/hash_aggregate.rs and merge_aggregate.rs: the operators, which
-- differ in the method of the accumulators that they call and in what `new` does without GROUP BY.
pub mod Calls
use tiny_olap.Base.{
  ℕ, List, [], ◌∷◌, ◌++◌, map, Bool, true, false, is_empty, if◌then◌else◌, length, replicate,
  Option, none, some, ok, err, panic, stuck, ◌>>=◌,
}
use tiny_olap.Execution.Batch.{Outcome}
use tiny_olap.Execution.Aggregation.{
  RecordBatch, column_by_name, Field, Answer, and_then, expect, Accumulator,
}
use tiny_olap.Execution.Aggregation.Groups.{Row, GroupMap, assign_rows, ordered_rows}

-- A child is the batches, or errors, that its calls give before the `None`.
pub record AggregateExec (Col S : Type 0) : Type 0 where
  pub child : List (Outcome (RecordBatch Col))
  pub output_schema : List Field
  pub emitted : Bool
  pub accumulators : List S
  pub group_by_fields : List Field
  pub group_to_index : GroupMap

module _ {Col S : Type 0} where
  abbrev pub with_child :
      AggregateExec Col S → List (Outcome (RecordBatch Col)) → AggregateExec Col S
  with_child s child = record {
    child = child;
    output_schema = s.output_schema;
    emitted = s.emitted;
    accumulators = s.accumulators;
    group_by_fields = s.group_by_fields;
    group_to_index = s.group_to_index;
  }

  abbrev pub with_groups : AggregateExec Col S → GroupMap → List S → AggregateExec Col S
  with_groups s groups accumulators = record {
    child = s.child;
    output_schema = s.output_schema;
    emitted = s.emitted;
    accumulators = accumulators;
    group_by_fields = s.group_by_fields;
    group_to_index = groups;
  }

  abbrev pub finished : AggregateExec Col S → AggregateExec Col S
  finished s = record {
    child = s.child;
    output_schema = s.output_schema;
    emitted = true;
    accumulators = s.accumulators;
    group_by_fields = s.group_by_fields;
    group_to_index = s.group_to_index;
  }

-- `convert_columns` and `convert_rows` are arrow's RowConverter, `try_new` is its RecordBatch::try_new,
-- and `iterate` is the order of hashbrown's iterator.
module _ {Col S : Type 0} (acc : Accumulator Col S)
    (convert_columns : List Col → Outcome (List Row)) (convert_rows : List Row → Outcome (List Col))
    (try_new : List Field → List Col → Outcome (RecordBatch Col))
    (iterate : GroupMap → GroupMap) where
  -- `HashAggregateExec::new`.
  unfoldable pub hash_new :
      List S → List (Outcome (RecordBatch Col)) → List Field → AggregateExec Col S
  hash_new accumulators child group_by_fields = record {
    child = child;
    output_schema = group_by_fields ++ map acc.output_field accumulators;
    emitted = false;
    accumulators = accumulators;
    group_by_fields = group_by_fields;
    group_to_index = [];
  }

  -- `MergeAggregateExec::new`: without GROUP BY there is one group from the start.
  unfoldable pub merge_new :
      List S → List (Outcome (RecordBatch Col)) → List Field → AggregateExec Col S
  merge_new accumulators child group_by_fields =
      hash_new
        (if is_empty group_by_fields
          then map (acc.ensure_capacity 1) accumulators
          else accumulators)
        child group_by_fields

  -- A group-by column that is missing panics.
  unfoldable pub group_by_arrays : List Field → RecordBatch Col → Outcome (List Col)
  group_by_arrays [] batch = ok []
  group_by_arrays (f ∷ fs) batch = do
    col ← expect (column_by_name f.name batch.columns)
    cols ← group_by_arrays fs batch
    ok (col ∷ cols)

  -- `group_indices`, `num_groups` and the map after the batch.
  unfoldable pub group_rows :
      List Field → GroupMap → RecordBatch Col → Outcome (List ℕ × (ℕ × GroupMap))
  group_rows [] m batch = ok (replicate batch.num_rows 0, (1, m))
  group_rows (f ∷ fs) m batch = do
    arrays ← group_by_arrays (f ∷ fs) batch
    rows ← convert_columns arrays
    (indices, m') ← ok (assign_rows rows m)
    ok (indices, (length m', m'))

  unfoldable pub materialize_all : List S → List Col × List S
  materialize_all [] = ([], [])
  materialize_all (a ∷ accs) =
      let first = acc.materialize a in
      let rest = materialize_all accs in (first.0 ∷ rest.0, first.1 ∷ rest.1)

  unfoldable pub group_arrays : List Field → GroupMap → Outcome (List Col)
  group_arrays [] m = ok []
  group_arrays (f ∷ fs) m = ordered_rows iterate m >>= λ rows. convert_rows rows

  abbrev pub Answered : Type 0
  Answered = Option (Outcome (RecordBatch Col)) × AggregateExec Col S

  unfoldable pub emit_batch : Outcome (RecordBatch Col) → AggregateExec Col S → Answered
  emit_batch (ok batch) s = (some (ok batch), finished s)
  emit_batch (err e) s = (some (err e), s)
  emit_batch panic s = (some panic, s)
  emit_batch stuck s = (some stuck, s)

  -- The output: the group-by columns, then those of the accumulators.
  unfoldable pub emit_arrays : Outcome (List Col) → AggregateExec Col S → Answered
  emit_arrays (ok arrays) s =
      let accs = materialize_all s.accumulators in
      emit_batch (try_new s.output_schema (arrays ++ accs.0))
        (with_groups s s.group_to_index accs.1)
  emit_arrays (err e) s = (some (err e), s)
  emit_arrays panic s = (some panic, s)
  emit_arrays stuck s = (some stuck, s)

  unfoldable pub finish : Answer (AggregateExec Col S) → Answered
  finish (ok u, s) = emit_arrays (group_arrays s.group_by_fields s.group_to_index) s
  finish (err e, s) = (some (err e), s)
  finish (panic, s) = (some panic, s)
  finish (stuck, s) = (some stuck, s)

  -- `accept` is `update` in the one operator and `merge` in the other.
  module _ (accept : RecordBatch Col → List ℕ → ℕ → S → Answer S) where
    -- Up to the first accumulator that fails.
    unfoldable pub feed : RecordBatch Col → List ℕ → ℕ → List S → Answer (List S)
    feed batch indices num_groups [] = (ok tt, [])
    feed batch indices num_groups (a ∷ accs) =
        let first = accept batch indices num_groups a in
        let rest = feed batch indices num_groups accs in
        elim first.0 [
          | ok u ↦ (rest.0, first.1 ∷ rest.1)
          | err e ↦ (err e, first.1 ∷ accs)
          | panic ↦ (panic, first.1 ∷ accs)
          | stuck ↦ (stuck, first.1 ∷ accs)
        ]

    unfoldable pub accept_rows :
        RecordBatch Col
        → Outcome (List ℕ × (ℕ × GroupMap))
        → AggregateExec Col S
        → Answer (AggregateExec Col S)
    accept_rows batch (ok (indices, (num_groups, m))) s =
        let fed = feed batch indices num_groups s.accumulators in (fed.0, with_groups s m fed.1)
    accept_rows batch (err e) s = (err e, s)
    accept_rows batch panic s = (panic, s)
    accept_rows batch stuck s = (stuck, s)

    -- One round of the loop, for a batch.
    unfoldable pub accept_batch :
        RecordBatch Col → AggregateExec Col S → Answer (AggregateExec Col S)
    accept_batch batch s = accept_rows batch (group_rows s.group_by_fields s.group_to_index batch) s

    -- The loop, until the child gives `None` or something fails.
    unfoldable pub drain :
        List (Outcome (RecordBatch Col)) → AggregateExec Col S → Answer (AggregateExec Col S)
    drain [] s = (ok tt, with_child s [])
    drain (ok batch ∷ rest) s =
        and_then (accept_batch batch (with_child s rest)) (λ s'. drain rest s')
    drain (err e ∷ rest) s = (err e, with_child s rest)
    drain (panic ∷ rest) s = (panic, with_child s rest)
    drain (stuck ∷ rest) s = (stuck, with_child s rest)

    unfoldable pub next_batch : AggregateExec Col S → Answered
    next_batch s = if s.emitted then (none, s) else finish (drain s.child s)

  -- `HashAggregateExec::next_batch` and `MergeAggregateExec::next_batch`.
  unfoldable pub hash_next_batch : AggregateExec Col S → Answered
  hash_next_batch s = next_batch acc.update s

  unfoldable pub merge_next_batch : AggregateExec Col S → Answered
  merge_next_batch s = next_batch acc.merge s
