-- ===== src/Execution/Builder/WellTyped.antt =====
-- Plans over known columns are built.
use tiny_olap.Base.{List, ◌≡◌, Bool, true, false, some, All}
use tiny_olap.Catalog.{
  Name, DataType, i8, i16, i32, i64, u8, u16, u32, u64, f32, f64, bool_type, str_type, ColumnSchema,
  TableSchema, find_column,
}
use tiny_olap.Logical.Plan.{AggFunc, count, sum, avg, min, max}
use tiny_olap.Physical.Plan.{
  PhysicalExpr, column_ref, constant, compare_with, logical, AggSpec, PhysicalPlan, full_scan,
  zone_map_scan, filter_by, project_to, hash_aggregate, limit_to,
}
use tiny_olap.Execution.Builder.{Operator, Root, gather_exec, merge_aggregate_exec}

abbrev pub IsNumeric : DataType → Type 0
IsNumeric bool_type = ⊥
IsNumeric str_type = ⊥
IsNumeric i8 = Unit
IsNumeric i16 = Unit
IsNumeric i32 = Unit
IsNumeric i64 = Unit
IsNumeric u8 = Unit
IsNumeric u16 = Unit
IsNumeric u32 = Unit
IsNumeric u64 = Unit
IsNumeric f32 = Unit
IsNumeric f64 = Unit

-- The workers of a root, and whether it merges them.
abbrev pub workers_of : Root → List Operator
workers_of (gather_exec children) = children
workers_of (merge_aggregate_exec accs children fields) = children

abbrev pub is_merged : Root → Bool
is_merged (gather_exec children) = false
is_merged (merge_aggregate_exec accs children fields) = true

-- Whether a plan has an aggregate anywhere.
abbrev pub has_aggregate : PhysicalPlan → Bool
has_aggregate (full_scan table columns) = false
has_aggregate (zone_map_scan table columns predicate) = false
has_aggregate (filter_by predicate input) = has_aggregate input
has_aggregate (project_to projections input) = has_aggregate input
has_aggregate (limit_to limit input) = has_aggregate input
has_aggregate (hash_aggregate group_by aggregates input) = true

module _ (schema : TableSchema) where
  abbrev pub IsColumn : Name → Type 0
  IsColumn name = (c : ColumnSchema) × (find_column name schema.columns ≡ some c)

  abbrev pub IsNumericColumn : Name → Type 0
  IsNumericColumn name =
      (c : ColumnSchema) × (find_column name schema.columns ≡ some c) × IsNumeric c.data_type

  abbrev pub IsColumnExpr : PhysicalExpr → Type 0
  IsColumnExpr (column_ref name) = IsColumn name
  IsColumnExpr (constant v) = ⊥
  IsColumnExpr (compare_with left op right) = ⊥
  IsColumnExpr (logical left op right) = ⊥

  -- Counts and averages take a column without a look at the schema.
  abbrev pub TakesColumn : AggFunc → Name → Type 0
  TakesColumn sum name = IsNumericColumn name
  TakesColumn min name = IsNumericColumn name
  TakesColumn max name = IsNumericColumn name
  TakesColumn count name = Unit
  TakesColumn avg name = Unit

  abbrev pub TakesExpr : AggFunc → PhysicalExpr → Type 0
  TakesExpr func (column_ref name) = TakesColumn func name
  TakesExpr func (constant v) = ⊥
  TakesExpr func (compare_with left op right) = ⊥
  TakesExpr func (logical left op right) = ⊥

  abbrev pub IsSpec : AggSpec → Type 0
  IsSpec spec = TakesExpr spec.func spec.arg

  abbrev pub WellTyped : PhysicalPlan → Type 0
  WellTyped (full_scan table columns) = All IsColumn columns
  WellTyped (zone_map_scan table columns predicate) = All IsColumn columns
  WellTyped (filter_by predicate input) = WellTyped input
  WellTyped (project_to projections input) = WellTyped input
  WellTyped (limit_to limit input) = WellTyped input
  WellTyped (hash_aggregate group_by aggregates input) =
      All IsColumnExpr group_by × All IsSpec aggregates × WellTyped input
