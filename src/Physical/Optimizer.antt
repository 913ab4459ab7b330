-- ===== src/Physical/Optimizer.antt =====
-- tinyolap/src/physical_plan/optimizer.rs: true filters are dropped, and a filter straight above
-- a scan hands its predicate to the scan as well.
pub mod Pushdown
use tiny_olap.Base.{List, true}
use tiny_olap.Physical.Plan.{
  bool_value, constant, PhysicalPlan, full_scan, zone_map_scan, filter_by, project_to,
  hash_aggregate, limit_to,
}

unfoldable pub rewrite : (PhysicalPlan → PhysicalPlan) → PhysicalPlan → PhysicalPlan
rewrite f (filter_by p input) = f (filter_by p (rewrite f input))
rewrite f (project_to es input) = f (project_to es (rewrite f input))
rewrite f (hash_aggregate keys aggs input) = f (hash_aggregate keys aggs (rewrite f input))
rewrite f (limit_to n input) = f (limit_to n (rewrite f input))
rewrite f (full_scan t cols) = f (full_scan t cols)
rewrite f (zone_map_scan t cols p) = f (zone_map_scan t cols p)

-- `PredicatePushdown`.
unfoldable pub pushdown_node : PhysicalPlan → PhysicalPlan
pushdown_node (filter_by p (full_scan t cols)) = filter_by p (zone_map_scan t cols p)
pushdown_node node = node

-- `EliminateTrueFilter`.
unfoldable pub eliminate_node : PhysicalPlan → PhysicalPlan
eliminate_node (filter_by (constant (bool_value true)) input) = input
eliminate_node node = node

unfoldable pub optimize : PhysicalPlan → PhysicalPlan
optimize plan = rewrite pushdown_node (rewrite eliminate_node plan)
