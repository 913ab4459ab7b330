-- ===== src/Logical/Examples.antt =====
-- Concrete runs of the optimizer, and its theorems at concrete inputs.
use tiny_olap.Base.{List, [], ◌∷◌, ◌≡◌, refl, true, none, some, ok, bytes_eq}
use tiny_olap.Base.Int.{pos}
use tiny_olap.Catalog.{Name, i32, TableSchema, find_column}
use tiny_olap.Logical.Plan.{
  LiteralValue, int, boolean, null, eq, gt, and, LogicalExpr, column, literal, binary_op,
  LogicalPlan, scan, filter, project,
}
use tiny_olap.Logical.Folding.{fold_ints, fold_operands, fold_expr}
use tiny_olap.Logical.Coercion.{coerce_expr}
use tiny_olap.Logical.Coercion.Laws.{IsCoercion, coerce_expr-IsCoercion}
use tiny_olap.Logical.Meaning.{Source, compare_ints, connect, apply_op, value}
use tiny_olap.Logical.Meaning.Rules.{value-fold_expr}

-- A column "x".
abbrev x : Name
x = 120 ∷ []

abbrev schema : TableSchema
schema = record {
  name = 116 ∷ [];
  columns = record { name = x; data_type = i32 } ∷ [];
  sort_key = 0 ∷ [];
}

abbrev first_value : List LiteralValue → LiteralValue
first_value [] = null
first_value (v ∷ vs) = v

-- Rows of one value, three of them in every table.
abbrev one_column : Source LiteralValue
one_column = record {
  column_of = λ row t c. some row;
  aggregate_of = λ row f arg. none;
  cast_to = λ ty v. some v;
  compare_others = λ a op b. none;
  row_of = first_value;
  table = λ t. some (int (pos 3) ∷ int (pos 5) ∷ int (pos 7) ∷ []);
  group = λ keys aggs rows. some rows;
}

-- `1 = 1 AND x > 4`.
abbrev predicate : LogicalExpr
predicate =
    binary_op (binary_op (literal (int (pos 1))) eq (literal (int (pos 1)))) and
      (binary_op (column (116 ∷ []) x) gt (literal (int (pos 4))))

abbrev query : LogicalPlan
query = project (column (116 ∷ []) x ∷ []) (filter predicate (scan (116 ∷ [])))

known : find_column x schema.columns ≡ some (record { name = x; data_type = i32 })
unfolding find_column bytes_eq
known = refl

coerce_expr-IsCoercion_example :
    (out : LogicalExpr) × (coerce_expr schema predicate ≡ ok out) × IsCoercion schema predicate out
coerce_expr-IsCoercion_example =
    coerce_expr-IsCoercion schema predicate
      ((tt, tt), ((record { name = x; data_type = i32 }, known), tt))

predicate_holds : value one_column (int (pos 5)) predicate ≡ some (boolean true)
unfolding value apply_op compare_ints connect
predicate_holds = refl

value-fold_expr_example : value one_column (int (pos 5)) (fold_expr predicate) ≡ some (boolean true)
value-fold_expr_example =
    value-fold_expr one_column (int (pos 5)) predicate (boolean true) predicate_holds

folded : fold_expr predicate ≡ binary_op (column (116 ∷ []) x) gt (literal (int (pos 4)))
unfolding fold_expr fold_operands fold_ints
folded = refl
