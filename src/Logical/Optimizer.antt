-- ===== src/Logical/Optimizer.antt =====
-- tinyolap/src/logical_plan/optimizer.rs: a function applied to every node, children first, and
-- the three rules in their order.
use tiny_olap.Base.{map, true, ok, ◌>>=◌}
use tiny_olap.Catalog.{TableSchema}
use tiny_olap.Logical.Plan.{
  boolean, literal, LogicalPlan, scan, filter, project, aggregate_by, limit,
}
use tiny_olap.Logical.Folding.{fold_expr}
use tiny_olap.Logical.Coercion.{Panics, coerce_expr}

-- The rewritten function may panic.
unfoldable pub rewrite : (LogicalPlan → Panics LogicalPlan) → LogicalPlan → Panics LogicalPlan
rewrite f (filter p input) = rewrite f input >>= λ new_input. f (filter p new_input)
rewrite f (project es input) = rewrite f input >>= λ new_input. f (project es new_input)
rewrite f (aggregate_by keys aggs input) =
    rewrite f input >>= λ new_input. f (aggregate_by keys aggs new_input)
rewrite f (limit n input) = rewrite f input >>= λ new_input. f (limit n new_input)
rewrite f (scan t) = f (scan t)

-- `TypeCoercion`.
unfoldable pub coerce_node : TableSchema → LogicalPlan → Panics LogicalPlan
coerce_node schema (filter p input) =
    coerce_expr schema p >>= λ predicate. ok (filter predicate input)
coerce_node schema node = ok node

-- `ConstantFolding`.
unfoldable pub fold_node : LogicalPlan → LogicalPlan
fold_node (filter p input) = filter (fold_expr p) input
fold_node (project es input) = project (map fold_expr es) input
fold_node node = node

-- `EliminateTrueFilter`.
unfoldable pub eliminate_node : LogicalPlan → LogicalPlan
eliminate_node (filter (literal (boolean true)) input) = input
eliminate_node node = node

unfoldable pub coercion : TableSchema → LogicalPlan → Panics LogicalPlan
coercion schema plan = rewrite (coerce_node schema) plan

unfoldable pub folding : LogicalPlan → Panics LogicalPlan
folding plan = rewrite (λ node. ok (fold_node node)) plan

unfoldable pub elimination : LogicalPlan → Panics LogicalPlan
elimination plan = rewrite (λ node. ok (eliminate_node node)) plan

unfoldable pub optimize : TableSchema → LogicalPlan → Panics LogicalPlan
optimize schema plan = do
  coerced ← coercion schema plan
  folded ← folding coerced
  elimination folded
