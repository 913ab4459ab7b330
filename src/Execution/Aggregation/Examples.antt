-- ===== src/Execution/Aggregation/Examples.antt =====
-- Concrete runs of the aggregation, and its theorems at concrete inputs. An array is its numbers.
use tiny_olap.Base.{
  ltb, if◌then◌else◌, true, false, ℕ, ◌+◌, ◌%◌, ◌<◌, ◌≡◌, refl, List, [], ◌∷◌, bytes_eq, get_elem?,
  length, Option, some, none, All, ok, err, arith,
}
use mathlib.Core.List.{reverse}
use mathlib.Core.List.Permᴰ
use tiny_olap.Base.Words.{word_mod, wrapping_add}
use tiny_olap.Catalog.{Name, u64}
use tiny_olap.Execution.Batch.{Outcome, io_error}
use tiny_olap.Execution.Aggregation.{RecordBatch, column_by_name, Field, settle, and_then, expect}
use tiny_olap.Execution.Aggregation.Slots.{resize, modify, each_row}
use tiny_olap.Execution.Aggregation.Slots.Rows.{foldl, group_values, start_at}
use tiny_olap.Execution.Aggregation.Count as Count
use tiny_olap.Execution.Aggregation.Count.{CountAccumulator, count_accumulator}
use tiny_olap.Execution.Aggregation.Count.PerGroup.{occurrences, update-occurrences}
use tiny_olap.Execution.Aggregation.Sum as Sum
use tiny_olap.Execution.Aggregation.Sum.{Summable, SumAccumulator, unsigned_sum, with_sums}
use tiny_olap.Execution.Aggregation.Sum.PerGroup.{IsSummable, update-group_values}
use tiny_olap.Execution.Aggregation.Sum.Batches.{WorkerBatch, IsBatch, update_all, worker_values}
use tiny_olap.Execution.Aggregation.Sum.Partial.{merge-update}
use tiny_olap.Execution.Aggregation.Sum.Words.{unsigned_sum-IsSummable}
use tiny_olap.Execution.Aggregation.Extremum as Extremum
use tiny_olap.Execution.Aggregation.Extremum.{Ordered, ExtremumAccumulator, min_prefix}
use tiny_olap.Execution.Aggregation.Groups.{Row, GroupMap, assign_rows, ordered_rows}
use tiny_olap.Execution.Aggregation.Groups.Dense.{numbered, IsDistinct, Named, assign_rows-Named}
use tiny_olap.Execution.Aggregation.Groups as Groups
use tiny_olap.Execution.Aggregation.Groups.Tally.{tally, update-tally}
use tiny_olap.Execution.Aggregation.Groups.Order.{ordered_rows-assign_rows}
use tiny_olap.Execution.Aggregation.Exec as Exec
use tiny_olap.Execution.Aggregation.Exec.{AggregateExec, with_child, hash_new, next_batch, drain}
use tiny_olap.Execution.Aggregation.Exec.Calls.{next_batch-after, next_batch-err}

abbrev Col : Type 0
Col = List ℕ

abbrev numbers : Col → Option (List ℕ)
numbers col = some col

abbrev array : List ℕ → Col
array xs = xs

abbrev x_sum : Summable Col ℕ ℕ
x_sum = unsigned_sum numbers numbers array

abbrev UnsignedWord : ℕ → Type 0
UnsignedWord a = a < word_mod 8

abbrev unsigned_words : IsSummable x_sum UnsignedWord
unsigned_words = unsigned_sum-IsSummable numbers array numbers

-- The column "x" with the values 5, 6, 7.
abbrev x_batch : RecordBatch Col
x_batch = record { num_rows = 3; columns = (120 ∷ [], 5 ∷ 6 ∷ 7 ∷ []) ∷ [] }

abbrev x_values : List ℕ
x_values = 5 ∷ 6 ∷ 7 ∷ []

abbrev indices : List ℕ
indices = 0 ∷ 1 ∷ 0 ∷ []

abbrev no_sums : SumAccumulator ℕ
no_sums = record { running_sums = []; column_name = 120 ∷ [] }

x_column : column_by_name (120 ∷ []) x_batch.columns ≡ some x_values
unfolding column_by_name bytes_eq
x_column = refl

x_typed : x_sum.downcast x_values ≡ some x_values
unfolding unsigned_sum
x_typed = refl

below : All (λ gi. gi < 2) indices
below = ground arith

update-group_values_example :
    (ys : List ℕ) × (Sum.update x_sum x_batch indices 2 no_sums ≡ (ok tt, with_sums no_sums ys))
    × (get_elem? ys 0
        ≡ some (
            foldl
              (λ a v. x_sum.add_assign a (x_sum.into_widened v))
              (start_at x_sum.default no_sums.running_sums 0)
              (group_values 0 indices x_values)))
update-group_values_example =
    update-group_values x_sum (λ a. a < word_mod 8) (unsigned_sum-IsSummable numbers array numbers)
      x_batch indices 2 no_sums x_values x_values 0 x_column x_typed tt below refl (omega arith)

-- A worker's two batches: 5, 6, 7 in the one group met so far, then 8 in a new group and 9 in the
-- old one.
abbrev first_batch : WorkerBatch x_sum
first_batch = record {
  batch = x_batch;
  group_indices = 0 ∷ 0 ∷ 0 ∷ [];
  num_groups = 1;
  column = x_values;
  values = x_values;
}

abbrev second_batch : WorkerBatch x_sum
second_batch = record {
  batch = record { num_rows = 2; columns = (120 ∷ [], 8 ∷ 9 ∷ []) ∷ [] };
  group_indices = 1 ∷ 0 ∷ [];
  num_groups = 2;
  column = 8 ∷ 9 ∷ [];
  values = 8 ∷ 9 ∷ [];
}

abbrev worker_batches : List (WorkerBatch x_sum)
worker_batches = first_batch ∷ second_batch ∷ []

first_batch-IsBatch : IsBatch x_sum (120 ∷ []) first_batch
unfolding column_by_name bytes_eq unsigned_sum
first_batch-IsBatch = record { named = refl; typed = refl; inside = ground arith; sizes = refl }

second_batch-IsBatch : IsBatch x_sum (120 ∷ []) second_batch
unfolding column_by_name bytes_eq unsigned_sum
second_batch-IsBatch = record { named = refl; typed = refl; inside = ground arith; sizes = refl }

abbrev partial_sums : List ℕ
partial_sums = 27 ∷ 8 ∷ []

x_taken :
    update_all x_sum worker_batches (Sum.new (120 ∷ []))
    ≡ (ok tt, with_sums (Sum.new (120 ∷ [])) partial_sums)
unfolding update_all and_then Sum.update Sum.update_column Sum.ensure_capacity Sum.sum_groups
    Sum.sum_all Sum.new settle expect column_by_name bytes_eq unsigned_sum resize modify each_row
    wrapping_add
x_taken = refl

-- The column "sum(x)".
abbrev sums_batch : RecordBatch Col
sums_batch = record {
  num_rows = 2;
  columns = (115 ∷ 117 ∷ 109 ∷ 40 ∷ 120 ∷ 41 ∷ [], partial_sums) ∷ [];
}

sums_column :
    column_by_name (Sum.output_field x_sum no_sums).name sums_batch.columns ≡ some partial_sums
unfolding column_by_name bytes_eq Sum.output_field
sums_column = refl

sums_typed :
    x_sum.downcast_widened partial_sums
    ≡ some (update_all x_sum worker_batches (Sum.new (120 ∷ []))).1.running_sums
unfolding unsigned_sum
sums_typed = rw x_taken refl

-- The two groups in the other order.
abbrev swapped : List ℕ
swapped = 1 ∷ 0 ∷ []

swapped_below : All (λ gi. gi < 2) swapped
swapped_below = ground arith

merge-update_example :
    ((update_all x_sum worker_batches (Sum.new (120 ∷ []))).0 ≡ ok tt)
    × (ys : List ℕ) × (Sum.merge x_sum sums_batch swapped 2 no_sums ≡ (ok tt, with_sums no_sums ys))
    × (get_elem? ys 1
        ≡ some (
            foldl
              (λ a v. x_sum.add_assign a (x_sum.into_widened v))
              (start_at x_sum.default no_sums.running_sums 1)
              (worker_values x_sum 1 swapped worker_batches)))
merge-update_example =
    merge-update x_sum UnsignedWord unsigned_words (120 ∷ []) worker_batches sums_batch swapped 2
      no_sums partial_sums 1
      (omega arith, first_batch-IsBatch, (omega arith, second_batch-IsBatch, tt)) sums_column
      sums_typed swapped_below refl tt (omega arith)

abbrev some_counts : CountAccumulator
some_counts = record { counts = 4 ∷ []; column_name = 120 ∷ [] }

update-occurrences_example :
    (ys : List ℕ) × (Count.update numbers array x_batch indices 2 some_counts
      ≡ (ok tt, Count.with_counts some_counts ys))
    × (get_elem? ys 0
        ≡ some ((start_at 0 some_counts.counts 0 + occurrences 0 indices) % word_mod 8))
update-occurrences_example =
    update-occurrences numbers array x_batch indices 2 some_counts 0 (omega arith, tt) below
      (omega arith)

abbrev some_rows : List Row
some_rows = (7 ∷ []) ∷ (8 ∷ []) ∷ (7 ∷ []) ∷ []

no_keys : IsDistinct []
unfolding IsDistinct
no_keys = tt

assign_rows-Named_example :
    (keys' : List Row) × ((assign_rows some_rows (numbered 0 [])).1 ≡ numbered 0 keys')
    × Named keys' (assign_rows some_rows (numbered 0 [])).0 some_rows
    × IsDistinct keys'
assign_rows-Named_example = assign_rows-Named some_rows [] no_keys (omega arith)

-- An iterator that gives the entries from the last to the first.
abbrev iterate : GroupMap → GroupMap
iterate m = reverse m

ordered_rows-assign_rows_example :
    (keys' : List Row) × (ordered_rows iterate (assign_rows some_rows (numbered 0 [])).1 ≡ ok keys')
    × Named keys' (assign_rows some_rows (numbered 0 [])).0 some_rows
    × IsDistinct keys'
ordered_rows-assign_rows_example =
    ordered_rows-assign_rows iterate some_rows [] (λ m. Permᴰ.symm (Permᴰ.reverse m)) no_keys
      (omega arith)

-- No grouping, so that no row is converted, and a batch of any columns.
abbrev convert_columns : List Col → Outcome (List Row)
convert_columns cols = ok []

abbrev convert_rows : List Row → Outcome (List Col)
convert_rows rows = ok []

abbrev columns_only : List Col → List (Name × Col)
columns_only [] = []
columns_only (col ∷ cols) = ([], col) ∷ columns_only cols

abbrev try_new : List Field → List Col → Outcome (RecordBatch Col)
try_new fields cols = ok (record { num_rows = 1; columns = columns_only cols })

abbrev counting : List (Outcome (RecordBatch Col)) → List ℕ → AggregateExec Col CountAccumulator
counting child counts = record {
  child = child;
  output_schema = [];
  emitted = false;
  accumulators = record { counts = counts; column_name = 120 ∷ [] } ∷ [];
  group_by_fields = [];
  group_to_index = [];
}

abbrev counted : AggregateExec Col CountAccumulator
counted = record {
  child = [];
  output_schema = [];
  emitted = true;
  accumulators = record { counts = []; column_name = 120 ∷ [] } ∷ [];
  group_by_fields = [];
  group_to_index = [];
}

abbrev count_batch : RecordBatch Col
count_batch = record { num_rows = 1; columns = ([], 3 ∷ []) ∷ [] }

three_counted :
    next_batch
      (count_accumulator numbers array)
      convert_columns
      convert_rows
      try_new
      iterate
      (Count.update numbers array)
      (counting (ok x_batch ∷ []) [])
    ≡ (some (ok count_batch), counted)
unfolding next_batch drain Exec.accept_batch Exec.accept_rows Exec.group_rows Exec.feed Exec.finish
    Exec.emit_arrays Exec.emit_batch Exec.group_arrays Exec.materialize_all count_accumulator
    Count.update Count.ensure_capacity Count.count_groups Count.materialize settle and_then resize
    modify wrapping_add
three_counted = refl

next_batch-after_example :
    next_batch
      (count_accumulator numbers array)
      convert_columns
      convert_rows
      try_new
      iterate
      (Count.update numbers array)
      counted
    ≡ (none, counted)
next_batch-after_example =
    next_batch-after (count_accumulator numbers array) convert_columns convert_rows try_new iterate
      (Count.update numbers array) (counting (ok x_batch ∷ []) []) counted count_batch three_counted

batch_taken :
    drain
      (count_accumulator numbers array)
      convert_columns
      convert_rows
      try_new
      iterate
      (Count.update numbers array)
      (ok x_batch ∷ [])
      (counting (ok x_batch ∷ err io_error ∷ []) [])
    ≡ (ok tt, counting [] (3 ∷ []))
unfolding drain Exec.accept_batch Exec.accept_rows Exec.group_rows Exec.feed Count.update
    Count.ensure_capacity Count.count_groups settle and_then resize modify wrapping_add
batch_taken = refl

next_batch-err_example :
    next_batch
      (count_accumulator numbers array)
      convert_columns
      convert_rows
      try_new
      iterate
      (Count.update numbers array)
      (counting (ok x_batch ∷ err io_error ∷ []) [])
    ≡ (some (err io_error), with_child (counting [] (3 ∷ [])) [])
next_batch-err_example =
    next_batch-err (count_accumulator numbers array) convert_columns convert_rows try_new iterate
      (Count.update numbers array) (x_batch ∷ []) io_error []
      (counting (ok x_batch ∷ err io_error ∷ []) []) (counting [] (3 ∷ [])) refl refl batch_taken

smallest : Option ℕ → List ℕ → Option ℕ
smallest o [] = o
smallest none (v ∷ vs) = smallest (some v) vs
smallest (some r) (v ∷ vs) = smallest (some (if ltb v r then v else r)) vs

abbrev x_min : Ordered Col ℕ
x_min = record {
  default = 0;
  better = ltb;
  best = λ vs. smallest none vs;
  downcast = numbers;
  output_datatype = u64;
  into_array = array;
  prefix = min_prefix;
}

-- The least value of group 0 before the batch is 6.
abbrev some_minimums : ExtremumAccumulator ℕ
some_minimums = record { has_value = true ∷ []; running = 6 ∷ []; column_name = 120 ∷ [] }

abbrev first_key : Row
first_key = 7 ∷ []

first_index : get_elem? (assign_rows some_rows (numbered 0 [])).0 2 ≡ some 0
unfolding assign_rows Groups.assign_row Groups.assign_entry Groups.find bytes_eq numbered
first_index = refl

-- The rows 7, 8, 7, of which the last is asked for.
update-tally_example :
    (ys : List ℕ) × (Count.update numbers array x_batch
        (assign_rows some_rows (numbered 0 [])).0
        (length (assign_rows some_rows (numbered 0 [])).1)
        some_counts
      ≡ (ok tt, Count.with_counts some_counts ys))
    × (get_elem? ys 0
        ≡ some ((start_at 0 some_counts.counts 0 + tally first_key some_rows) % word_mod 8))
update-tally_example =
    update-tally numbers array x_batch some_rows [] some_counts 2 0 first_key no_keys (omega arith)
      (omega arith, tt) refl first_index
