-- ===== src/Physical/Plan.antt =====
-- tinyolap/src/physical_plan/physical_operators.rs: expressions and plans of the physical layer.
-- A float is its bits, an integer of any width its value.
use tiny_olap.Base.{ℕ, List, Bool}
use tiny_olap.Base.Int.{ℤ}
use tiny_olap.Catalog.{Name}
use tiny_olap.Logical.Plan.{AggFunc}

pub data LiteralValue : Type 0 where
  i8_value i16_value i32_value i64_value : ℤ → LiteralValue
  u8_value u16_value u32_value u64_value : ℕ → LiteralValue
  f32_value f64_value : ℕ → LiteralValue
  str_value : Name → LiteralValue
  bool_value : Bool → LiteralValue
  null_value : LiteralValue

pub data CmpOp : Type 0 where
  cmp_eq cmp_not_eq cmp_lt cmp_lt_eq cmp_gt cmp_gt_eq : CmpOp

pub data LogicalOp : Type 0 where
  op_and op_or : LogicalOp

pub data PhysicalExpr : Type 0 where
  column_ref : Name → PhysicalExpr
  constant : LiteralValue → PhysicalExpr
  compare_with : PhysicalExpr → CmpOp → PhysicalExpr → PhysicalExpr
  logical : PhysicalExpr → LogicalOp → PhysicalExpr → PhysicalExpr

-- The five aggregate functions are those of the logical plan.
pub record AggSpec : Type 0 where
  pub func : AggFunc
  pub arg : PhysicalExpr
  pub output_name : Name

pub data PhysicalPlan : Type 0 where
  full_scan : Name → List Name → PhysicalPlan
  zone_map_scan : Name → List Name → PhysicalExpr → PhysicalPlan
  filter_by : PhysicalExpr → PhysicalPlan → PhysicalPlan
  project_to : List PhysicalExpr → PhysicalPlan → PhysicalPlan
  hash_aggregate : List PhysicalExpr → List AggSpec → PhysicalPlan → PhysicalPlan
  limit_to : ℕ → PhysicalPlan → PhysicalPlan
