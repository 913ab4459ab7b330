-- ===== src/Execution/Predicate.antt =====
-- tinyolap/src/execution/expr.rs: the mask of a predicate over a batch.
use tiny_olap.Base.{ok, err, panic, ◌>>=◌}
use tiny_olap.Physical.Plan.{null_value, PhysicalExpr, column_ref, constant, compare_with, logical}
use tiny_olap.Execution.Batch.{
  invalid_data, Batch, Mask, Outcome, ColumnarValue, array, scalar, Arrow, column_named,
}

unfoldable pub evaluate_operand : PhysicalExpr → Batch → Outcome ColumnarValue
evaluate_operand (column_ref name) batch = column_named name batch >>= λ cells. ok (array cells)
evaluate_operand (constant v) batch = ok (scalar v)
evaluate_operand (compare_with l op r) batch = err invalid_data
evaluate_operand (logical l op r) batch = err invalid_data

-- `to_arrow_datum` panics on a null.
unfoldable pub to_arrow_datum : ColumnarValue → Outcome ColumnarValue
to_arrow_datum (scalar null_value) = panic
to_arrow_datum v = ok v

module _ (arrow : Arrow) where
  unfoldable pub evaluate_predicate : PhysicalExpr → Batch → Outcome Mask
  evaluate_predicate (compare_with left op right) batch = do
    l_cv ← evaluate_operand left batch
    r_cv ← evaluate_operand right batch
    l ← to_arrow_datum l_cv
    r ← to_arrow_datum r_cv
    arrow.compare_values op l r
  evaluate_predicate (logical left op right) batch = do
    l ← evaluate_predicate left batch
    r ← evaluate_predicate right batch
    arrow.connect_masks op l r
  evaluate_predicate (column_ref name) batch = err invalid_data
  evaluate_predicate (constant v) batch = err invalid_data
