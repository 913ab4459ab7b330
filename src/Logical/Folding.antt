-- ===== src/Logical/Folding.antt =====
-- tinyolap/src/logical_plan/optimizer_rules/constant_folding.rs: literals compared at plan time,
-- and And and Or with a Boolean literal on the left.
use tiny_olap.Base.{true, false, not}
use tiny_olap.Base.Int.{ℤ, ltb_ℤ, leb_ℤ, eqb_ℤ}
use tiny_olap.Logical.Plan.{
  int, boolean, BinaryOp, eq, not_eq, lt, lt_eq, gt, gt_eq, and, or, LogicalExpr, column, literal,
  binary_op, aggregate, cast,
}

-- The match on the operator between two integers.
unfoldable pub fold_ints : ℤ → BinaryOp → ℤ → LogicalExpr
fold_ints a eq b = literal (boolean (eqb_ℤ a b))
fold_ints a not_eq b = literal (boolean (not (eqb_ℤ a b)))
fold_ints a lt b = literal (boolean (ltb_ℤ a b))
fold_ints a lt_eq b = literal (boolean (leb_ℤ a b))
fold_ints a gt b = literal (boolean (ltb_ℤ b a))
fold_ints a gt_eq b = literal (boolean (leb_ℤ b a))
fold_ints a and b = binary_op (literal (int a)) and (literal (int b))
fold_ints a or b = binary_op (literal (int a)) or (literal (int b))

-- The match on the folded operands.
unfoldable pub fold_operands : LogicalExpr → BinaryOp → LogicalExpr → LogicalExpr
fold_operands (literal (int a)) op (literal (int b)) = fold_ints a op b
fold_operands (literal (boolean true)) and r = r
fold_operands (literal (boolean false)) and r = literal (boolean false)
fold_operands (literal (boolean true)) or r = literal (boolean true)
fold_operands (literal (boolean false)) or r = r
fold_operands l op r = binary_op l op r

unfoldable pub fold_expr : LogicalExpr → LogicalExpr
fold_expr (binary_op l op r) = fold_operands (fold_expr l) op (fold_expr r)
fold_expr (column t c) = column t c
fold_expr (literal v) = literal v
fold_expr (aggregate f arg) = aggregate f arg
fold_expr (cast e ty) = cast e ty
