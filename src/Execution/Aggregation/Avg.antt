-- ===== src/Execution/Aggregation/Avg.antt =====
-- tinyolap/src/execution/aggregation/avg.rs.
use tiny_olap.Base.{
  ℕ, List, [], ◌∷◌, ◌++◌, Bool, if◌then◌else◌, Option, none, some, err, ok, panic, ◌>>=◌,
}
use tiny_olap.Base.Words.{wrapping_add}
use tiny_olap.Catalog.{Name, f64}
use tiny_olap.Execution.Batch.{invalid_data, Outcome}
use tiny_olap.Execution.Aggregation.{
  RecordBatch, column_by_name, Field, column_type, sum_and_count, Answer, settle, expect,
  Accumulator,
}
use tiny_olap.Execution.Aggregation.Slots.{resize, modify}

-- What the accumulator needs of f64 and of arrow: `cast` is its cast to an array of f64, `none` where
-- it fails, and the arrays of partial averages are structs of a sum and a count.
pub record Doubles (Col F : Type 0) : Type 0 where
  pub zero_f64 : F
  pub add_f64 : F → F → F
  pub div_f64 : F → F → F
  pub of_u64 : ℕ → F
  pub cast : Col → Option (List F)
  pub downcast_struct : Col → Option (List F × List ℕ)
  pub float_array : List F → Col
  pub struct_array : List F → List ℕ → Col

pub record AvgAccumulator (F : Type 0) : Type 0 where
  pub column_name : Name
  pub running_counts : List ℕ
  pub running_sums : List F
  pub is_partial : Bool

unfoldable pub new : {F : Type 0} → Name → Bool → AvgAccumulator F
new column_name is_partial = record {
  column_name = column_name;
  running_counts = [];
  running_sums = [];
  is_partial = is_partial;
}

abbrev pub with_running : {F : Type 0} → AvgAccumulator F → List F × List ℕ → AvgAccumulator F
with_running s running = record {
  column_name = s.column_name;
  running_counts = running.1;
  running_sums = running.0;
  is_partial = s.is_partial;
}

module _ {Col F : Type 0} (t : Doubles Col F) where
  unfoldable pub ensure_capacity : ℕ → AvgAccumulator F → AvgAccumulator F
  ensure_capacity num_groups s =
      with_running s
        (resize num_groups t.zero_f64 s.running_sums, resize num_groups 0 s.running_counts)

  -- A sum and a count onto those of a group.
  unfoldable pub add_at : ℕ → F → ℕ → List F × List ℕ → Outcome (List F × List ℕ)
  add_at gi sum count (sums, counts) = do
    sums' ← modify (λ a. t.add_f64 a sum) gi sums
    counts' ← modify (λ c. wrapping_add 8 c count) gi counts
    ok (sums', counts')

  unfoldable pub update_rows : List ℕ → List F → List F × List ℕ → Outcome (List F × List ℕ)
  update_rows [] values running = ok running
  update_rows (gi ∷ gis) [] running = panic
  update_rows (gi ∷ gis) (v ∷ values) running =
      add_at gi v 1 running >>= λ running'. update_rows gis values running'

  unfoldable pub update_cast :
      Option (List F) → List ℕ → AvgAccumulator F → Answer (AvgAccumulator F)
  update_cast none group_indices s = (err invalid_data, s)
  update_cast (some values) group_indices s =
      settle (with_running s) s
        (update_rows group_indices values (s.running_sums, s.running_counts))

  unfoldable pub update_column : Option Col → List ℕ → AvgAccumulator F → Answer (AvgAccumulator F)
  update_column none group_indices s = (err invalid_data, s)
  update_column (some col) group_indices s = update_cast (t.cast col) group_indices s

  unfoldable pub update :
      RecordBatch Col → List ℕ → ℕ → AvgAccumulator F → Answer (AvgAccumulator F)
  update batch group_indices num_groups s =
      let s1 = ensure_capacity num_groups s in
      update_column (column_by_name s1.column_name batch.columns) group_indices s1

  -- "avg(" and ")" around the name.
  unfoldable pub output_name : AvgAccumulator F → Name
  output_name s = (97 ∷ 118 ∷ 103 ∷ 40 ∷ []) ++ (s.column_name ++ (41 ∷ []))

  unfoldable pub output_field : AvgAccumulator F → Field
  output_field s = record {
    name = output_name s;
    data_type = if s.is_partial then sum_and_count else column_type f64;
  }

  unfoldable pub merge_rows : List ℕ → List F → List ℕ → List F × List ℕ → Outcome (List F × List ℕ)
  merge_rows [] sums counts running = ok running
  merge_rows (gi ∷ gis) [] counts running = panic
  merge_rows (gi ∷ gis) (x ∷ sums) [] running = panic
  merge_rows (gi ∷ gis) (x ∷ sums) (n ∷ counts) running =
      add_at gi x n running >>= λ running'. merge_rows gis sums counts running'

  -- A column that is missing, or is no struct, panics.
  unfoldable pub merge : RecordBatch Col → List ℕ → ℕ → AvgAccumulator F → Answer (AvgAccumulator F)
  merge batch group_indices num_groups s =
      let s1 = ensure_capacity num_groups s in
      settle (with_running s1) s1 (
        expect (column_by_name (output_name s1) batch.columns) >>= λ col.
        expect (t.downcast_struct col) >>= λ arrays.
        merge_rows group_indices arrays.0 arrays.1 (s1.running_sums, s1.running_counts))

  -- `zip` ends with the shorter vector.
  unfoldable pub averages : List F → List ℕ → List F
  averages [] counts = []
  averages (x ∷ sums) [] = []
  averages (x ∷ sums) (n ∷ counts) = t.div_f64 x (t.of_u64 n) ∷ averages sums counts

  unfoldable pub materialize : AvgAccumulator F → Col × AvgAccumulator F
  materialize s = (
    if s.is_partial
        then t.struct_array s.running_sums s.running_counts
        else t.float_array (averages s.running_sums s.running_counts),
    with_running s ([], []),
  )

  unfoldable pub avg_accumulator : Accumulator Col (AvgAccumulator F)
  avg_accumulator = record {
    update = update;
    merge = merge;
    materialize = materialize;
    output_field = output_field;
    ensure_capacity = ensure_capacity;
  }
