-- ===== src/Execution/Aggregation/Count.antt =====
-- tinyolap/src/execution/aggregation/count.rs.
pub mod PerGroup
use tiny_olap.Base.{
  ℕ, List, [], ◌∷◌, ◌++◌, ◌==◌, if◌then◌else◌, length, Option, none, some, err, ok, panic, ◌>>=◌,
}
use tiny_olap.Base.Words.{wrapping_add}
use tiny_olap.Catalog.{Name, u64}
use tiny_olap.Execution.Batch.{Outcome, invalid_data}
use tiny_olap.Execution.Aggregation.{
  RecordBatch, column_by_name, Field, column_type, Answer, settle, expect, Accumulator,
}
use tiny_olap.Execution.Aggregation.Slots.{resize, modify, each_row}

pub record CountAccumulator : Type 0 where
  pub counts : List ℕ
  pub column_name : Name

unfoldable pub new : Name → CountAccumulator
new column_name = record { counts = []; column_name = column_name }

abbrev pub with_counts : CountAccumulator → List ℕ → CountAccumulator
with_counts s counts = record { counts = counts; column_name = s.column_name }

unfoldable pub ensure_capacity : ℕ → CountAccumulator → CountAccumulator
ensure_capacity num_groups s = with_counts s (resize num_groups 0 s.counts)

-- `for &gi in group_indices`.
unfoldable pub count_rows : List ℕ → List ℕ → Outcome (List ℕ)
count_rows [] counts = ok counts
count_rows (gi ∷ gis) counts =
    modify (λ c. wrapping_add 8 c 1) gi counts >>= λ cs. count_rows gis cs

-- Without GROUP BY the rows are only counted.
unfoldable pub count_groups : List ℕ → ℕ → List ℕ → Outcome (List ℕ)
count_groups group_indices num_groups counts =
    if num_groups == 1
    then modify (λ c. wrapping_add 8 c (length group_indices)) 0 counts
    else count_rows group_indices counts

-- "count(" and ")" around the name.
unfoldable pub output_field : CountAccumulator → Field
output_field s = record {
  name = (99 ∷ 111 ∷ 117 ∷ 110 ∷ 116 ∷ 40 ∷ []) ++ (s.column_name ++ (41 ∷ []));
  data_type = column_type u64;
}

-- `downcast_u64` is arrow's `downcast_ref::<UInt64Array>` and the values of the array, `u64_array` its
-- constructor.
module _ {Col : Type 0} (downcast_u64 : Col → Option (List ℕ)) (u64_array : List ℕ → Col) where
  unfoldable pub update : RecordBatch Col → List ℕ → ℕ → CountAccumulator → Answer CountAccumulator
  update batch group_indices num_groups s =
      let s1 = ensure_capacity num_groups s in
      settle (with_counts s1) s1 (count_groups group_indices num_groups s1.counts)

  unfoldable pub merge_column : Option Col → List ℕ → CountAccumulator → Answer CountAccumulator
  merge_column none group_indices s = (err invalid_data, s)
  merge_column (some col) group_indices s = settle (with_counts s) s (
      expect (downcast_u64 col) >>= λ values.
      each_row (wrapping_add 8) group_indices values s.counts)

  unfoldable pub merge : RecordBatch Col → List ℕ → ℕ → CountAccumulator → Answer CountAccumulator
  merge batch group_indices num_groups s =
      let s1 = ensure_capacity num_groups s in
      merge_column (column_by_name (output_field s1).name batch.columns) group_indices s1

  unfoldable pub materialize : CountAccumulator → Col × CountAccumulator
  materialize s = (u64_array s.counts, with_counts s [])

  unfoldable pub count_accumulator : Accumulator Col CountAccumulator
  count_accumulator = record {
    update = update;
    merge = merge;
    materialize = materialize;
    output_field = output_field;
    ensure_capacity = ensure_capacity;
  }
