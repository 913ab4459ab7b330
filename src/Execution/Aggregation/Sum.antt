-- ===== src/Execution/Aggregation/Sum.antt =====
-- tinyolap/src/execution/aggregation/sum.rs.
pub mod PerGroup
pub mod Words
pub mod EachRow
pub mod Neutral
pub mod Batches
pub mod Partial
use tiny_olap.Base.{
  ℕ, List, [], ◌∷◌, ◌++◌, ◌==◌, if◌then◌else◌, Option, none, some, err, ok, panic, ◌>>=◌,
}
use tiny_olap.Base.Words.{word_mod, wrapping_add}
use tiny_olap.Base.Int.{ℤ, to_bits}
use tiny_olap.Catalog.{Name, DataType, i64, u64}
use tiny_olap.Execution.Batch.{Outcome, invalid_data}
use tiny_olap.Execution.Aggregation.{
  RecordBatch, column_by_name, Field, column_type, Answer, settle, expect, Accumulator,
}
use tiny_olap.Execution.Aggregation.Slots.{resize, modify, each_row}

-- The trait: values `N` of a column are added up as values `W`. The array types are arrow's.
pub record Summable (Col N W : Type 0) : Type 0 where
  pub default : W
  pub add_assign : W → W → W
  pub into_widened : N → W
  pub downcast : Col → Option (List N)
  pub downcast_widened : Col → Option (List W)
  pub output_datatype : DataType
  pub into_array : List W → Col

-- Signed columns: the sum is an i64, which wraps, as its word.
unfoldable pub signed_sum :
    {Col : Type 0}
    → (Col → Option (List ℤ))
    → (Col → Option (List ℕ))
    → (List ℕ → Col)
    → Summable Col ℤ ℕ
signed_sum downcast downcast_i64 i64_array = record {
  default = 0;
  add_assign = wrapping_add 8;
  into_widened = to_bits 8;
  downcast = downcast;
  downcast_widened = downcast_i64;
  output_datatype = i64;
  into_array = i64_array;
}

-- Unsigned columns: the sum is a u64, which wraps.
unfoldable pub unsigned_sum :
    {Col : Type 0}
    → (Col → Option (List ℕ))
    → (Col → Option (List ℕ))
    → (List ℕ → Col)
    → Summable Col ℕ ℕ
unsigned_sum downcast downcast_u64 u64_array = record {
  default = 0;
  add_assign = wrapping_add 8;
  into_widened = λ v. v;
  downcast = downcast;
  downcast_widened = downcast_u64;
  output_datatype = u64;
  into_array = u64_array;
}

pub record SumAccumulator (W : Type 0) : Type 0 where
  pub running_sums : List W
  pub column_name : Name

unfoldable pub new : {W : Type 0} → Name → SumAccumulator W
new column_name = record { running_sums = []; column_name = column_name }

abbrev pub with_sums : {W : Type 0} → SumAccumulator W → List W → SumAccumulator W
with_sums s sums = record { running_sums = sums; column_name = s.column_name }

module _ {Col N W : Type 0} (t : Summable Col N W) where
  unfoldable pub ensure_capacity : ℕ → SumAccumulator W → SumAccumulator W
  ensure_capacity num_groups s = with_sums s (resize num_groups t.default s.running_sums)

  abbrev add_value : W → N → W
  add_value a v = t.add_assign a (t.into_widened v)

  -- `for &v in arr.values().iter() { acc += v.into() }`.
  unfoldable pub sum_all : W → List N → W
  sum_all acc [] = acc
  sum_all acc (v ∷ vs) = sum_all (t.add_assign acc (t.into_widened v)) vs

  -- Without GROUP BY the batch is added up apart.
  unfoldable pub sum_groups : List ℕ → ℕ → List N → List W → Outcome (List W)
  sum_groups group_indices num_groups values sums =
      if num_groups == 1
      then modify (λ a. t.add_assign a (sum_all t.default values)) 0 sums
      else each_row (λ a v. t.add_assign a (t.into_widened v)) group_indices values sums

  unfoldable pub update_column :
      Option Col → List ℕ → ℕ → SumAccumulator W → Answer (SumAccumulator W)
  update_column none group_indices num_groups s = (err invalid_data, s)
  update_column (some col) group_indices num_groups s = settle (with_sums s) s (
      expect (t.downcast col) >>= λ values.
      sum_groups group_indices num_groups values s.running_sums)

  unfoldable pub update :
      RecordBatch Col → List ℕ → ℕ → SumAccumulator W → Answer (SumAccumulator W)
  update batch group_indices num_groups s =
      let s1 = ensure_capacity num_groups s in
      update_column (column_by_name s1.column_name batch.columns) group_indices num_groups s1

  -- "sum(" and ")" around the name.
  unfoldable pub output_field : SumAccumulator W → Field
  output_field s = record {
    name = (115 ∷ 117 ∷ 109 ∷ 40 ∷ []) ++ (s.column_name ++ (41 ∷ []));
    data_type = column_type t.output_datatype;
  }

  unfoldable pub merge_column : Option Col → List ℕ → SumAccumulator W → Answer (SumAccumulator W)
  merge_column none group_indices s = (err invalid_data, s)
  merge_column (some col) group_indices s = settle (with_sums s) s (
      expect (t.downcast_widened col) >>= λ values.
      each_row t.add_assign group_indices values s.running_sums)

  unfoldable pub merge : RecordBatch Col → List ℕ → ℕ → SumAccumulator W → Answer (SumAccumulator W)
  merge batch group_indices num_groups s =
      let s1 = ensure_capacity num_groups s in
      merge_column (column_by_name (output_field s1).name batch.columns) group_indices s1

  unfoldable pub materialize : SumAccumulator W → Col × SumAccumulator W
  materialize s = (t.into_array s.running_sums, with_sums s [])

  unfoldable pub sum_accumulator : Accumulator Col (SumAccumulator W)
  sum_accumulator = record {
    update = update;
    merge = merge;
    materialize = materialize;
    output_field = output_field;
    ensure_capacity = ensure_capacity;
  }
