-- ===== src/Logical/Coercion.antt =====
-- tinyolap/src/logical_plan/optimizer_rules/type_coercion.rs: a cast to the type of the column
-- around the literal that the column is compared with.
pub mod Laws
use tiny_olap.Base.{
  List, Bool, true, false, Option, none, some, Result, ok, panic, ◌>>=◌, if◌then◌else◌,
}
use tiny_olap.Catalog.{Name, DataType, ColumnSchema, TableSchema, find_column}
use tiny_olap.Logical.Plan.{
  BinaryOp, eq, not_eq, lt, lt_eq, gt, gt_eq, and, or, LogicalExpr, column, literal, binary_op,
  aggregate, cast,
}

-- The code has no `Err` here, but `expect` panics.
abbrev pub Panics {ℓ} : Type ℓ → Type ℓ
Panics A = Result ⊥ A

unfoldable pub is_comparison_op : BinaryOp → Bool
is_comparison_op and = false
is_comparison_op or = false
is_comparison_op _ = true

-- `.expect("analyzer should have validated column existence")`.
unfoldable pub type_of : TableSchema → Name → Panics DataType
type_of schema col = elim (find_column col schema.columns) [
  | none ↦ panic
  | some c ↦ ok c.data_type
]

unfoldable pub coerce_comparison :
    TableSchema → LogicalExpr → BinaryOp → LogicalExpr → Panics LogicalExpr
coerce_comparison schema (column t c) op (literal v) = do
  ty ← type_of schema c
  ok (binary_op (column t c) op (cast (literal v) ty))
coerce_comparison schema (literal v) op (column t c) = do
  ty ← type_of schema c
  ok (binary_op (cast (literal v) ty) op (column t c))
coerce_comparison schema l op r = ok (binary_op l op r)

unfoldable pub coerce_expr : TableSchema → LogicalExpr → Panics LogicalExpr
coerce_expr schema (binary_op l op r) = do
  left ← coerce_expr schema l
  right ← coerce_expr schema r
  if is_comparison_op op
      then coerce_comparison schema left op right
      else ok (binary_op left op right)
coerce_expr schema (cast e ty) = do inner ← coerce_expr schema e; ok (cast inner ty)
coerce_expr schema (column t c) = ok (column t c)
coerce_expr schema (literal v) = ok (literal v)
coerce_expr schema (aggregate f arg) = ok (aggregate f arg)
