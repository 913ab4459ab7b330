-- ===== src/Execution/Aggregation/Extremum.antt =====
-- tinyolap/src/execution/aggregation/min.rs and max.rs, which differ in the test, in the kernel of
-- arrow and in the name of the output.
pub mod PerGroup
pub mod Update
use tiny_olap.Base.{
  ℕ, List, [], ◌∷◌, ◌++◌, Bool, true, false, ◌==◌, if◌then◌else◌, Option, none, some, err, ok,
  panic, ◌>>=◌,
}
use tiny_olap.Catalog.{Name, DataType}
use tiny_olap.Execution.Batch.{Outcome, invalid_data}
use tiny_olap.Execution.Aggregation.{
  RecordBatch, column_by_name, Field, column_type, Answer, settle, expect, Accumulator,
}
use tiny_olap.Execution.Aggregation.Slots.{resize, at, modify}

-- `running` is `running_minimums` or `running_maximums`.
pub record ExtremumAccumulator (N : Type 0) : Type 0 where
  pub has_value : List Bool
  pub running : List N
  pub column_name : Name

unfoldable pub new : {N : Type 0} → Name → ExtremumAccumulator N
new column_name = record { has_value = []; running = []; column_name = column_name }

-- The two vectors.
abbrev pub Slots : Type 0 → Type 0
Slots N = List Bool × List N

abbrev pub with_slots : {N : Type 0} → ExtremumAccumulator N → Slots N → ExtremumAccumulator N
with_slots s slots = record { has_value = slots.0; running = slots.1; column_name = s.column_name }

-- What the accumulator needs of a numeric type of arrow: `better` is `<` for the minimum and `>` for
-- the maximum, `best` arrow's kernel for a whole array, `prefix` the start of the output's name.
pub record Ordered (Col N : Type 0) : Type 0 where
  pub default : N
  pub better : N → N → Bool
  pub best : List N → Option N
  pub downcast : Col → Option (List N)
  pub output_datatype : DataType
  pub into_array : List N → Col
  pub prefix : Name

-- The prefixes "min(" and "max(".
abbrev pub min_prefix : Name
min_prefix = 109 ∷ 105 ∷ 110 ∷ 40 ∷ []

abbrev pub max_prefix : Name
max_prefix = 109 ∷ 97 ∷ 120 ∷ 40 ∷ []

module _ {Col N : Type 0} (t : Ordered Col N) where
  unfoldable pub ensure_capacity : ℕ → ExtremumAccumulator N → ExtremumAccumulator N
  ensure_capacity num_groups s =
      with_slots s (resize num_groups false s.has_value, resize num_groups t.default s.running)

  -- The value as the group's first one.
  unfoldable pub store : ℕ → N → Slots N → Outcome (Slots N)
  store gi value (has, running) = do
    running' ← modify (λ _. value) gi running
    has' ← modify (λ _. true) gi has
    ok (has', running')

  -- The value in place of a worse one.
  unfoldable pub improve : ℕ → N → Slots N → Outcome (Slots N)
  improve gi value (has, running) = do
    m ← at running gi
    running' ← modify (λ r. if t.better value r then value else r) gi running
    ok (has, running')

  unfoldable pub take_value : ℕ → N → Slots N → Outcome (Slots N)
  take_value gi value slots =
      at slots.0 gi >>= λ seen. if seen then improve gi value slots else store gi value slots

  unfoldable pub take_values : List ℕ → List N → Slots N → Outcome (Slots N)
  take_values [] values slots = ok slots
  take_values (gi ∷ gis) [] slots = panic
  take_values (gi ∷ gis) (v ∷ values) slots =
      take_value gi v slots >>= λ slots'. take_values gis values slots'

  unfoldable pub take_partial : Option N → Slots N → Outcome (Slots N)
  take_partial none slots = ok slots
  take_partial (some partial) slots = take_value 0 partial slots

  -- Without GROUP BY the kernel of arrow takes the whole array.
  unfoldable pub take_groups : List ℕ → ℕ → List N → Slots N → Outcome (Slots N)
  take_groups group_indices num_groups values slots =
      if num_groups == 1
      then take_partial (t.best values) slots
      else take_values group_indices values slots

  unfoldable pub take_column :
      Option Col → List ℕ → ℕ → ExtremumAccumulator N → Answer (ExtremumAccumulator N)
  take_column none group_indices num_groups s = (err invalid_data, s)
  take_column (some col) group_indices num_groups s = settle (with_slots s) s (
      expect (t.downcast col) >>= λ values.
      take_groups group_indices num_groups values (s.has_value, s.running))

  unfoldable pub update :
      RecordBatch Col → List ℕ → ℕ → ExtremumAccumulator N → Answer (ExtremumAccumulator N)
  update batch group_indices num_groups s =
      let s1 = ensure_capacity num_groups s in
      take_column (column_by_name s1.column_name batch.columns) group_indices num_groups s1

  unfoldable pub output_field : ExtremumAccumulator N → Field
  output_field s = record {
    name = t.prefix ++ (s.column_name ++ (41 ∷ []));
    data_type = column_type t.output_datatype;
  }

  unfoldable pub merge :
      RecordBatch Col → List ℕ → ℕ → ExtremumAccumulator N → Answer (ExtremumAccumulator N)
  merge batch group_indices num_groups s =
      let s1 = ensure_capacity num_groups s in
      take_column (column_by_name (output_field s1).name batch.columns) group_indices num_groups s1

  -- `has_value` stays.
  unfoldable pub materialize : ExtremumAccumulator N → Col × ExtremumAccumulator N
  materialize s = (t.into_array s.running, with_slots s (s.has_value, []))

  unfoldable pub extremum_accumulator : Accumulator Col (ExtremumAccumulator N)
  extremum_accumulator = record {
    update = update;
    merge = merge;
    materialize = materialize;
    output_field = output_field;
    ensure_capacity = ensure_capacity;
  }

-- `MinAccumulator` and `MaxAccumulator` of a type with the order `less`, with arrow's kernels
-- `aggregate::min` and `aggregate::max`.
module _ {Col N : Type 0} (default : N) (less : N → N → Bool) (downcast : Col → Option (List N))
    (data_type : DataType) (into_array : List N → Col) where
  unfoldable pub minimum : (List N → Option N) → Ordered Col N
  minimum best = record {
    default = default;
    better = less;
    best = best;
    downcast = downcast;
    output_datatype = data_type;
    into_array = into_array;
    prefix = min_prefix;
  }

  unfoldable pub maximum : (List N → Option N) → Ordered Col N
  maximum best = record {
    default = default;
    better = λ v r. less r v;
    best = best;
    downcast = downcast;
    output_datatype = data_type;
    into_array = into_array;
    prefix = max_prefix;
  }

  unfoldable pub min_accumulator : (List N → Option N) → Accumulator Col (ExtremumAccumulator N)
  min_accumulator best = extremum_accumulator (minimum best)

  unfoldable pub max_accumulator : (List N → Option N) → Accumulator Col (ExtremumAccumulator N)
  max_accumulator best = extremum_accumulator (maximum best)
