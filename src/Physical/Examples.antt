-- ===== src/Physical/Examples.antt =====
-- Concrete runs of lowering and of the physical rules, and their theorems at concrete inputs.
use tiny_olap.Base.{arith, true, false, [], ◌∷◌, ◌≡◌, refl, ok}
use tiny_olap.Base.Int.{pos}
use tiny_olap.Catalog.{Name, i8}
use tiny_olap.Logical.Plan.{
  int, gt, column, literal, binary_op, cast, LogicalPlan, scan, filter, project,
}
use tiny_olap.Physical.Plan.{
  i8_value, bool_value, cmp_gt, PhysicalExpr, column_ref, constant, compare_with, PhysicalPlan,
  full_scan, zone_map_scan, filter_by, project_to,
}
use tiny_olap.Physical.Lower.{
  Floats, bytes_ltb, insert, collect_expr_columns, collect_list, collect_columns, narrow_signed,
  narrow_literal, lower_binary, lower_cast, lower_expr, lower_exprs, lower_plan, lower,
}
use tiny_olap.Physical.Lower.Columns.{contains, plan_mentions, scan_columns, lower-scan_columns}
use tiny_olap.Physical.Lower.NoPanic.{int_i8, lower-FitsPlan}
use tiny_olap.Physical.Optimizer.{rewrite, eliminate_node, pushdown_node, optimize}
use tiny_olap.Physical.Optimizer.Pushdown.{forget, without_true_filters, Guarded, optimize-Guarded}

abbrev x : Name
x = 120 ∷ []

abbrev y : Name
y = 121 ∷ []

abbrev t : Name
t = 116 ∷ []

abbrev no_floats : Floats
no_floats = record { f32_of_i64 = λ n. 0; f64_of_i64 = λ n. 0; f32_of_f64 = λ f. 0; text = λ f. [] }

-- `SELECT y FROM t WHERE x > 4`, coerced to an i8 column.
abbrev query : LogicalPlan
query =
    project (column t y ∷ [])
      (filter (binary_op (column t x) gt (cast (literal (int (pos 4))) i8)) (scan t))

abbrev predicate : PhysicalExpr
predicate = compare_with (column_ref x) cmp_gt (constant (i8_value (pos 4)))

abbrev plan : PhysicalPlan
plan = project_to (column_ref y ∷ []) (filter_by predicate (full_scan t (x ∷ y ∷ [])))

lowered : lower no_floats query ≡ ok plan
unfolding lower lower_plan lower_expr lower_exprs lower_cast lower_binary narrow_literal
    narrow_signed collect_columns collect_list collect_expr_columns insert bytes_ltb
lowered = refl

lower-scan_columns_example : contains x (scan_columns plan) ≡ plan_mentions x query
lower-scan_columns_example = lower-scan_columns no_floats query plan x lowered

-- A plan with a filter on true, which is dropped, and one on false, which stays.
abbrev constant_filters : PhysicalPlan
constant_filters =
    filter_by (constant (bool_value true))
      (filter_by (constant (bool_value false)) (filter_by predicate (full_scan t (x ∷ y ∷ []))))

optimize-Guarded_example :
    Guarded (optimize constant_filters)
    × (forget (optimize constant_filters) ≡ without_true_filters constant_filters)
optimize-Guarded_example = optimize-Guarded constant_filters tt

pushed_down :
    optimize plan
    ≡ project_to (column_ref y ∷ []) (filter_by predicate (zone_map_scan t (x ∷ y ∷ []) predicate))
unfolding optimize rewrite eliminate_node pushdown_node
pushed_down = refl

lower-FitsPlan_example : (out : PhysicalPlan) × (lower no_floats query ≡ ok out)
lower-FitsPlan_example =
    lower-FitsPlan no_floats query
      ((tt, tt), ((tt, int_i8 (record { above = omega arith; below = omega arith })), tt))
