-- ===== src/Physical/Optimizer/Pushdown.antt =====
-- What pushdown does to a plan.
use tiny_olap.Base.{Bool, ◌≡◌, ◌∙◌, refl, ap, true, false, if◌then◌else◌}
use tiny_olap.Physical.Plan.{
  i8_value, i16_value, i32_value, i64_value, u8_value, u16_value, u32_value, u64_value, f32_value,
  f64_value, str_value, bool_value, null_value, column_ref, constant, compare_with, logical,
  PhysicalExpr, PhysicalPlan, full_scan, zone_map_scan, filter_by, project_to, hash_aggregate,
  limit_to,
}
use tiny_olap.Physical.Optimizer.{rewrite, pushdown_node, eliminate_node, optimize}

-- The plan with full scans in place of zone map scans.
unfoldable pub forget : PhysicalPlan → PhysicalPlan
forget (full_scan t cols) = full_scan t cols
forget (zone_map_scan t cols p) = full_scan t cols
forget (filter_by p input) = filter_by p (forget input)
forget (project_to es input) = project_to es (forget input)
forget (hash_aggregate keys aggs input) = hash_aggregate keys aggs (forget input)
forget (limit_to n input) = limit_to n (forget input)

-- The constant true, and no other expression.
unfoldable pub is_constant_true : PhysicalExpr → Bool
is_constant_true (column_ref n) = false
is_constant_true (compare_with l op r) = false
is_constant_true (logical l op r) = false
is_constant_true (constant (i8_value v)) = false
is_constant_true (constant (i16_value v)) = false
is_constant_true (constant (i32_value v)) = false
is_constant_true (constant (i64_value v)) = false
is_constant_true (constant (u8_value v)) = false
is_constant_true (constant (u16_value v)) = false
is_constant_true (constant (u32_value v)) = false
is_constant_true (constant (u64_value v)) = false
is_constant_true (constant (f32_value v)) = false
is_constant_true (constant (f64_value v)) = false
is_constant_true (constant (str_value v)) = false
is_constant_true (constant (bool_value b)) = b
is_constant_true (constant null_value) = false

-- The plan without the filters whose predicate is the constant true, and with full scans in place
-- of zone map scans.
unfoldable pub without_true_filters : PhysicalPlan → PhysicalPlan
without_true_filters (full_scan t cols) = full_scan t cols
without_true_filters (zone_map_scan t cols p) = full_scan t cols
without_true_filters (filter_by p input) =
    let rest = without_true_filters input in if is_constant_true p then rest else filter_by p rest
without_true_filters (project_to es input) = project_to es (without_true_filters input)
without_true_filters (hash_aggregate keys aggs input) =
    hash_aggregate keys aggs (without_true_filters input)
without_true_filters (limit_to n input) = limit_to n (without_true_filters input)

-- A plan as lowering makes it, without zone map scans.
abbrev pub NoZoneMap : PhysicalPlan → Type 0
NoZoneMap (full_scan t cols) = Unit
NoZoneMap (zone_map_scan t cols p) = ⊥
NoZoneMap (filter_by p input) = NoZoneMap input
NoZoneMap (project_to es input) = NoZoneMap input
NoZoneMap (hash_aggregate keys aggs input) = NoZoneMap input
NoZoneMap (limit_to n input) = NoZoneMap input

-- A zone map scan stands straight under a filter with its predicate, and no full scan stands
-- straight under a filter.
abbrev pub Guarded : PhysicalPlan → Type 0
Guarded (full_scan t cols) = Unit
Guarded (zone_map_scan t cols p) = ⊥
Guarded (filter_by p (full_scan t cols)) = ⊥
Guarded (filter_by p (zone_map_scan t cols q)) = p ≡ q
Guarded (filter_by p (filter_by q input)) = Guarded (filter_by q input)
Guarded (filter_by p (project_to es input)) = Guarded input
Guarded (filter_by p (hash_aggregate keys aggs input)) = Guarded input
Guarded (filter_by p (limit_to n input)) = Guarded input
Guarded (project_to es input) = Guarded input
Guarded (hash_aggregate keys aggs input) = Guarded input
Guarded (limit_to n input) = Guarded input

filter_node-Guarded :
    (p : PhysicalExpr) (input : PhysicalPlan)
    → Guarded input
    → Guarded (pushdown_node (filter_by p input))
unfolding pushdown_node
filter_node-Guarded p (full_scan t cols) h = refl
filter_node-Guarded p (zone_map_scan t cols q) h = absurd h
filter_node-Guarded p (filter_by q input) h = h
filter_node-Guarded p (project_to es input) h = h
filter_node-Guarded p (hash_aggregate keys aggs input) h = h
filter_node-Guarded p (limit_to n input) h = h

pushdown-Guarded : (plan : PhysicalPlan) → NoZoneMap plan → Guarded (rewrite pushdown_node plan)
unfolding rewrite pushdown_node
pushdown-Guarded (full_scan t cols) h = tt
pushdown-Guarded (zone_map_scan t cols p) h = h
pushdown-Guarded (filter_by p input) h =
    filter_node-Guarded p (rewrite pushdown_node input) (pushdown-Guarded input h)
pushdown-Guarded (project_to es input) h = pushdown-Guarded input h
pushdown-Guarded (hash_aggregate keys aggs input) h = pushdown-Guarded input h
pushdown-Guarded (limit_to n input) h = pushdown-Guarded input h

filter_node-forget :
    (p : PhysicalExpr) (input : PhysicalPlan)
    → forget (pushdown_node (filter_by p input)) ≡ filter_by p (forget input)
unfolding pushdown_node forget
filter_node-forget p (full_scan t cols) = refl
filter_node-forget p (zone_map_scan t cols q) = refl
filter_node-forget p (filter_by q input) = refl
filter_node-forget p (project_to es input) = refl
filter_node-forget p (hash_aggregate keys aggs input) = refl
filter_node-forget p (limit_to n input) = refl

pushdown-forget : (plan : PhysicalPlan) → forget (rewrite pushdown_node plan) ≡ forget plan
unfolding rewrite pushdown_node forget
pushdown-forget (full_scan t cols) = refl
pushdown-forget (zone_map_scan t cols p) = refl
pushdown-forget (filter_by p input) =
    rw (filter_node-forget p (rewrite pushdown_node input), pushdown-forget input) refl
pushdown-forget (project_to es input) = ap (project_to es) (pushdown-forget input)
pushdown-forget (hash_aggregate keys aggs input) =
    ap (hash_aggregate keys aggs) (pushdown-forget input)
pushdown-forget (limit_to n input) = ap (limit_to n) (pushdown-forget input)

true_filter-NoZoneMap :
    (p : PhysicalExpr) (input : PhysicalPlan)
    → NoZoneMap input
    → NoZoneMap (eliminate_node (filter_by p input))
unfolding eliminate_node
true_filter-NoZoneMap (constant (bool_value true)) input h = h
true_filter-NoZoneMap (constant (bool_value false)) input h = h
true_filter-NoZoneMap (constant null_value) input h = h
true_filter-NoZoneMap (column_ref n) input h = h
true_filter-NoZoneMap (compare_with l op r) input h = h
true_filter-NoZoneMap (logical l op r) input h = h
true_filter-NoZoneMap (constant (i8_value v)) input h = h
true_filter-NoZoneMap (constant (i16_value v)) input h = h
true_filter-NoZoneMap (constant (i32_value v)) input h = h
true_filter-NoZoneMap (constant (i64_value v)) input h = h
true_filter-NoZoneMap (constant (u8_value v)) input h = h
true_filter-NoZoneMap (constant (u16_value v)) input h = h
true_filter-NoZoneMap (constant (u32_value v)) input h = h
true_filter-NoZoneMap (constant (u64_value v)) input h = h
true_filter-NoZoneMap (constant (f32_value v)) input h = h
true_filter-NoZoneMap (constant (f64_value v)) input h = h
true_filter-NoZoneMap (constant (str_value v)) input h = h

-- Dropping true filters brings in no zone map scan.
eliminate-NoZoneMap :
    (plan : PhysicalPlan) → NoZoneMap plan → NoZoneMap (rewrite eliminate_node plan)
unfolding rewrite eliminate_node
eliminate-NoZoneMap (full_scan t cols) h = tt
eliminate-NoZoneMap (zone_map_scan t cols p) h = h
eliminate-NoZoneMap (filter_by p input) h =
    true_filter-NoZoneMap p (rewrite eliminate_node input) (eliminate-NoZoneMap input h)
eliminate-NoZoneMap (project_to es input) h = eliminate-NoZoneMap input h
eliminate-NoZoneMap (hash_aggregate keys aggs input) h = eliminate-NoZoneMap input h
eliminate-NoZoneMap (limit_to n input) h = eliminate-NoZoneMap input h

eliminate_node-forget :
    (p : PhysicalExpr) (input : PhysicalPlan)
    → forget (eliminate_node (filter_by p input))
      ≡ (if is_constant_true p then forget input else filter_by p (forget input))
unfolding eliminate_node forget is_constant_true
eliminate_node-forget (constant (bool_value true)) input = refl
eliminate_node-forget (constant (bool_value false)) input = refl
eliminate_node-forget (constant null_value) input = refl
eliminate_node-forget (column_ref n) input = refl
eliminate_node-forget (compare_with l op r) input = refl
eliminate_node-forget (logical l op r) input = refl
eliminate_node-forget (constant (i8_value v)) input = refl
eliminate_node-forget (constant (i16_value v)) input = refl
eliminate_node-forget (constant (i32_value v)) input = refl
eliminate_node-forget (constant (i64_value v)) input = refl
eliminate_node-forget (constant (u8_value v)) input = refl
eliminate_node-forget (constant (u16_value v)) input = refl
eliminate_node-forget (constant (u32_value v)) input = refl
eliminate_node-forget (constant (u64_value v)) input = refl
eliminate_node-forget (constant (f32_value v)) input = refl
eliminate_node-forget (constant (f64_value v)) input = refl
eliminate_node-forget (constant (str_value v)) input = refl

eliminate-without_true_filters :
    (plan : PhysicalPlan) → forget (rewrite eliminate_node plan) ≡ without_true_filters plan
unfolding rewrite eliminate_node forget without_true_filters
eliminate-without_true_filters (full_scan t cols) = refl
eliminate-without_true_filters (zone_map_scan t cols p) = refl
eliminate-without_true_filters (filter_by p input) =
    rw
      (eliminate_node-forget p (rewrite eliminate_node input), eliminate-without_true_filters input)
      refl
eliminate-without_true_filters (project_to es input) =
    ap (project_to es) (eliminate-without_true_filters input)
eliminate-without_true_filters (hash_aggregate keys aggs input) =
    ap (hash_aggregate keys aggs) (eliminate-without_true_filters input)
eliminate-without_true_filters (limit_to n input) =
    ap (limit_to n) (eliminate-without_true_filters input)

-- Over a plan without zone map scans, optimizing drops exactly the filters whose predicate is the
-- constant true, and of the plan left only turns full scans into zone map scans: exactly those
-- straight under a filter, with the predicate of the filter.
pub optimize-Guarded :
    (plan : PhysicalPlan)
    → NoZoneMap plan
    → Guarded (optimize plan) × (forget (optimize plan) ≡ without_true_filters plan)
unfolding optimize
optimize-Guarded plan h = (
  pushdown-Guarded (rewrite eliminate_node plan) (eliminate-NoZoneMap plan h),
  pushdown-forget (rewrite eliminate_node plan) ∙ eliminate-without_true_filters plan,
)
