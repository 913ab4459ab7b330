-- ===== src/Logical/Meaning.antt =====
-- What a logical expression and a plan mean, independently of the rules of the optimizer: the
-- value of an expression on a row, and the rows of a plan.
pub mod Rules
pub mod Plans
use tiny_olap.Base.{
  ℕ, List, [], ◌∷◌, Bool, true, false, not, ◌&&◌, ◌||◌, Option, none, some, if◌then◌else◌, take,
}
use tiny_olap.Base.Int.{ℤ, ltb_ℤ, leb_ℤ, eqb_ℤ}
use tiny_olap.Catalog.{Name, DataType}
use tiny_olap.Logical.Plan.{
  LiteralValue, int, float, str, boolean, null, BinaryOp, eq, not_eq, lt, lt_eq, gt, gt_eq, and, or,
  AggFunc, LogicalExpr, column, literal, binary_op, aggregate, cast, LogicalPlan, scan, filter,
  project, aggregate_by, limit,
}

-- What the rules know nothing of: rows and their columns, casts, the values of aggregates, the
-- comparison of values that are not both integers, tables, and the work of a grouping.
pub record Source (Row : Type 0) : Type 0 where
  pub column_of : Row → Name → Name → Option LiteralValue
  pub aggregate_of : Row → AggFunc → LogicalExpr → Option LiteralValue
  pub cast_to : DataType → LiteralValue → Option LiteralValue
  pub compare_others : LiteralValue → BinaryOp → LiteralValue → Option LiteralValue
  pub row_of : List LiteralValue → Row
  pub table : Name → Option (List Row)
  pub group : List LogicalExpr → List LogicalExpr → List Row → Option (List Row)

abbrev pub bind {ℓ κ} : {A : Type ℓ} {B : Type κ} → Option A → (A → Option B) → Option B
bind none f = none
bind (some a) f = f a

unfoldable pub compare_ints : ℤ → BinaryOp → ℤ → Option LiteralValue
compare_ints a eq b = some (boolean (eqb_ℤ a b))
compare_ints a not_eq b = some (boolean (not (eqb_ℤ a b)))
compare_ints a lt b = some (boolean (ltb_ℤ a b))
compare_ints a lt_eq b = some (boolean (leb_ℤ a b))
compare_ints a gt b = some (boolean (ltb_ℤ b a))
compare_ints a gt_eq b = some (boolean (leb_ℤ b a))
compare_ints a and b = none
compare_ints a or b = none

unfoldable pub connect : Bool → BinaryOp → Bool → Option LiteralValue
connect a and b = some (boolean (a && b))
connect a or b = some (boolean (a || b))
connect a _ b = none

module _ {Row : Type 0} (src : Source Row) where
  -- Two integers compare as integers, two truth values connect; And and Or of anything else has no
  -- value.
  unfoldable pub apply_op : LiteralValue → BinaryOp → LiteralValue → Option LiteralValue
  apply_op (int a) op (int b) = compare_ints a op b
  apply_op (boolean a) and (boolean b) = connect a and b
  apply_op (boolean a) or (boolean b) = connect a or b
  apply_op a and b = none
  apply_op a or b = none
  apply_op a op b = src.compare_others a op b

  unfoldable pub value : Row → LogicalExpr → Option LiteralValue
  value row (column t c) = src.column_of row t c
  value row (literal v) = some v
  value row (binary_op l op r) = bind (value row l) (λ a. bind (value row r) (λ b. apply_op a op b))
  value row (aggregate f arg) = src.aggregate_of row f arg
  value row (cast e ty) = bind (value row e) (src.cast_to ty)

  -- A row stays when the predicate is true; a predicate without a truth value is an error.
  unfoldable pub keep : Option LiteralValue → Row → List Row → Option (List Row)
  keep (some (boolean b)) row rest = some (if b then row ∷ rest else rest)
  keep _ row rest = none

  unfoldable pub select : LogicalExpr → List Row → Option (List Row)
  select p [] = some []
  select p (row ∷ rows) = bind (select p rows) (keep (value row p) row)

  unfoldable pub values : Row → List LogicalExpr → Option (List LiteralValue)
  values row [] = some []
  values row (e ∷ es) = bind (value row e) (λ v. bind (values row es) (λ vs. some (v ∷ vs)))

  unfoldable pub project_rows : List LogicalExpr → List Row → Option (List Row)
  project_rows es [] = some []
  project_rows es (row ∷ rows) =
      bind (values row es) (λ vs. bind (project_rows es rows) (λ rest. some (src.row_of vs ∷ rest)))

  unfoldable pub rows_of : LogicalPlan → Option (List Row)
  rows_of (scan t) = src.table t
  rows_of (filter p input) = bind (rows_of input) (select p)
  rows_of (project es input) = bind (rows_of input) (project_rows es)
  rows_of (aggregate_by keys aggs input) = bind (rows_of input) (src.group keys aggs)
  rows_of (limit n input) = bind (rows_of input) (λ rows. some (take n rows))
