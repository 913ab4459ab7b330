-- ===== src/Logical/Plan.antt =====
-- tinyolap/src/logical_plan/logical_operators.rs: expressions and plans. A float is its bits.
use tiny_olap.Base.{ℕ, List, Bool}
use tiny_olap.Base.Int.{ℤ}
use tiny_olap.Catalog.{Name, DataType}

pub data LiteralValue : Type 0 where
  int : ℤ → LiteralValue
  float : ℕ → LiteralValue
  str : Name → LiteralValue
  boolean : Bool → LiteralValue
  null : LiteralValue

pub data BinaryOp : Type 0 where
  eq not_eq lt lt_eq gt gt_eq and or : BinaryOp

pub data AggFunc : Type 0 where
  count sum avg min max : AggFunc

pub data LogicalExpr : Type 0 where
  column : Name → Name → LogicalExpr
  literal : LiteralValue → LogicalExpr
  binary_op : LogicalExpr → BinaryOp → LogicalExpr → LogicalExpr
  aggregate : AggFunc → LogicalExpr → LogicalExpr
  cast : LogicalExpr → DataType → LogicalExpr

pub data LogicalPlan : Type 0 where
  scan : Name → LogicalPlan
  filter : LogicalExpr → LogicalPlan → LogicalPlan
  project : List LogicalExpr → LogicalPlan → LogicalPlan
  aggregate_by : List LogicalExpr → List LogicalExpr → LogicalPlan → LogicalPlan
  limit : ℕ → LogicalPlan → LogicalPlan
