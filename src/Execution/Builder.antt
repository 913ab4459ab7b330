-- ===== src/Execution/Builder.antt =====
-- tinyolap/src/execution/builder.rs: the operators of a physical plan, one copy for each worker. An
-- operator is what its constructor is given; the work source that the scans share is left out.
pub mod WellTyped
use tiny_olap.Base.{
  ℕ, zero, suc, List, [], ◌∷◌, Bool, true, false, Option, none, some, ok, err, ◌>>=◌,
}
use tiny_olap.Catalog.{
  Name, DataType, i8, i16, i32, i64, u8, u16, u32, u64, f32, f64, bool_type, str_type, ColumnSchema,
  TableSchema, find_column,
}
use tiny_olap.Logical.Plan.{AggFunc, count, sum, avg, min, max}
use tiny_olap.Physical.Plan.{
  PhysicalExpr, column_ref, constant, compare_with, logical, AggSpec, PhysicalPlan, full_scan,
  zone_map_scan, filter_by, project_to, hash_aggregate, limit_to,
}
use tiny_olap.Execution.Batch.{Outcome, invalid_data}

abbrev pub n_workers : ℕ
n_workers = 4

-- `SumAccumulator::<…>::new` and the others; an average is told whether it is a partial one.
pub data AccumulatorOf : Type 0 where
  sum_of min_of max_of : DataType → Name → AccumulatorOf
  count_of : Name → AccumulatorOf
  avg_of : Name → Bool → AccumulatorOf

pub data Operator : Type 0 where
  full_scan_exec : List ColumnSchema → Operator
  zone_map_scan_exec : List ColumnSchema → PhysicalExpr → Operator
  filter_exec : PhysicalExpr → Operator → Operator
  project_exec : List PhysicalExpr → Operator → Operator
  limit_exec : ℕ → Operator → Operator
  hash_aggregate_exec : List AccumulatorOf → Operator → List ColumnSchema → Operator

-- The root: the gathered workers, merged when the plan has an aggregate.
pub data Root : Type 0 where
  gather_exec : List Operator → Root
  merge_aggregate_exec : List AccumulatorOf → List Operator → List ColumnSchema → Root

unfoldable pub known : Option ColumnSchema → Outcome ColumnSchema
known none = err invalid_data
known (some c) = ok c

-- The types that sums, minimums and maximums are there for.
unfoldable pub numeric : DataType → AccumulatorOf → Outcome AccumulatorOf
numeric bool_type acc = err invalid_data
numeric str_type acc = err invalid_data
numeric i8 acc = ok acc
numeric i16 acc = ok acc
numeric i32 acc = ok acc
numeric i64 acc = ok acc
numeric u8 acc = ok acc
numeric u16 acc = ok acc
numeric u32 acc = ok acc
numeric u64 acc = ok acc
numeric f32 acc = ok acc
numeric f64 acc = ok acc

unfoldable pub agg_column : PhysicalExpr → Outcome Name
agg_column (column_ref name) = ok name
agg_column (constant v) = err invalid_data
agg_column (compare_with left op right) = err invalid_data
agg_column (logical left op right) = err invalid_data

-- The aggregate of a plan, below filters, projections and limits.
unfoldable pub find_aggregate : PhysicalPlan → Option (List PhysicalExpr × List AggSpec)
find_aggregate (full_scan table columns) = none
find_aggregate (zone_map_scan table columns predicate) = none
find_aggregate (filter_by predicate input) = find_aggregate input
find_aggregate (project_to projections input) = find_aggregate input
find_aggregate (limit_to limit input) = find_aggregate input
find_aggregate (hash_aggregate group_by aggregates input) = some (group_by, aggregates)

module _ (schema : TableSchema) where
  -- The columns of the names, up to the first one that is unknown.
  unfoldable pub scan_columns : List Name → Outcome (List ColumnSchema)
  scan_columns [] = ok []
  scan_columns (name ∷ names) = do
    c ← known (find_column name schema.columns)
    cs ← scan_columns names
    ok (c ∷ cs)

  -- The field of an expression: the column's name and type.
  unfoldable pub group_by_field : PhysicalExpr → Outcome ColumnSchema
  group_by_field (column_ref name) = known (find_column name schema.columns) >>= λ c.
      ok (record { name = name; data_type = c.data_type })
  group_by_field (constant v) = err invalid_data
  group_by_field (compare_with left op right) = err invalid_data
  group_by_field (logical left op right) = err invalid_data

  unfoldable pub build_group_by_fields : List PhysicalExpr → Outcome (List ColumnSchema)
  build_group_by_fields [] = ok []
  build_group_by_fields (e ∷ es) = do
    f ← group_by_field e
    fs ← build_group_by_fields es
    ok (f ∷ fs)

  unfoldable pub build_accumulator : Bool → AggFunc → Name → Outcome AccumulatorOf
  build_accumulator is_partial sum name =
      known (find_column name schema.columns) >>= λ c. numeric c.data_type (sum_of c.data_type name)
  build_accumulator is_partial count name = ok (count_of name)
  build_accumulator is_partial min name =
      known (find_column name schema.columns) >>= λ c. numeric c.data_type (min_of c.data_type name)
  build_accumulator is_partial max name =
      known (find_column name schema.columns) >>= λ c. numeric c.data_type (max_of c.data_type name)
  build_accumulator is_partial avg name = ok (avg_of name is_partial)

  unfoldable pub build_accumulators : Bool → List AggSpec → Outcome (List AccumulatorOf)
  build_accumulators is_partial [] = ok []
  build_accumulators is_partial (spec ∷ specs) = do
    name ← agg_column spec.arg
    acc ← build_accumulator is_partial spec.func name
    accs ← build_accumulators is_partial specs
    ok (acc ∷ accs)

  unfoldable pub build_inner : PhysicalPlan → Outcome Operator
  build_inner (full_scan table columns) = scan_columns columns >>= λ cs. ok (full_scan_exec cs)
  build_inner (zone_map_scan table columns predicate) =
      scan_columns columns >>= λ cs. ok (zone_map_scan_exec cs predicate)
  build_inner (filter_by predicate input) =
      build_inner input >>= λ child. ok (filter_exec predicate child)
  build_inner (project_to projections input) =
      build_inner input >>= λ child. ok (project_exec projections child)
  build_inner (limit_to limit input) = build_inner input >>= λ child. ok (limit_exec limit child)
  build_inner (hash_aggregate group_by aggregates input) = do
    accs ← build_accumulators true aggregates
    child ← build_inner input
    fields ← build_group_by_fields group_by
    ok (hash_aggregate_exec accs child fields)

  -- `for _ in 0..N_WORKERS`.
  unfoldable pub build_workers : ℕ → PhysicalPlan → Outcome (List Operator)
  build_workers zero plan = ok []
  build_workers (suc n) plan = do
    inner ← build_inner plan
    children ← build_workers n plan
    ok (inner ∷ children)

  unfoldable pub build_root :
      Option (List PhysicalExpr × List AggSpec) → List Operator → Outcome Root
  build_root none children = ok (gather_exec children)
  build_root (some (group_by, aggregates)) children = do
    accs ← build_accumulators false aggregates
    fields ← build_group_by_fields group_by
    ok (merge_aggregate_exec accs children fields)

  -- `build` behind the listing of the parts.
  unfoldable pub build : PhysicalPlan → Outcome Root
  build plan =
      build_workers n_workers plan >>= λ children. build_root (find_aggregate plan) children
