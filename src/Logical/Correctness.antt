-- ===== src/Logical/Correctness.antt =====
-- The optimizer as a whole: over the columns of the schema it does not panic, and its plan has
-- the rows of the coerced plan.
use tiny_olap.Base.{ℕ, List, ◌≡◌}
use tiny_olap.Catalog.{Name, TableSchema}
use tiny_olap.Logical.Plan.{LogicalExpr, LogicalPlan, scan, filter, project, aggregate_by, limit}
use tiny_olap.Logical.Coercion.Laws.{Known, erase_casts, Coerced, CastsAdded}

-- The predicates of the filters speak of columns of the schema.
abbrev pub KnownPlan : TableSchema → LogicalPlan → Type 0
KnownPlan schema (scan t) = Unit
KnownPlan schema (filter p input) = Known schema p × KnownPlan schema input
KnownPlan schema (project es input) = KnownPlan schema input
KnownPlan schema (aggregate_by keys aggs input) = KnownPlan schema input
KnownPlan schema (limit n input) = KnownPlan schema input

abbrev pub CoercedPlan : LogicalPlan → Type 0
CoercedPlan (scan t) = Unit
CoercedPlan (filter p input) = Coerced p × CoercedPlan input
CoercedPlan (project es input) = CoercedPlan input
CoercedPlan (aggregate_by keys aggs input) = CoercedPlan input
CoercedPlan (limit n input) = CoercedPlan input

-- The plan without the casts of its predicates.
unfoldable pub erase_plan : LogicalPlan → LogicalPlan
erase_plan (scan t) = scan t
erase_plan (filter p input) = filter (erase_casts p) (erase_plan input)
erase_plan (project es input) = project es (erase_plan input)
erase_plan (aggregate_by keys aggs input) = aggregate_by keys aggs (erase_plan input)
erase_plan (limit n input) = limit n (erase_plan input)

-- Two plans with the same nodes, the second with casts added in the predicates of its filters.
pub data PlanCastsAdded (schema : TableSchema) : LogicalPlan → LogicalPlan → Type 0 where
  at_scan : (t : Name) → PlanCastsAdded schema (scan t) (scan t)
  at_filter :
      (p q : LogicalExpr) (input out : LogicalPlan)
      → CastsAdded schema p q
      → PlanCastsAdded schema input out
      → PlanCastsAdded schema (filter p input) (filter q out)
  under_project :
      (es : List LogicalExpr) (input out : LogicalPlan)
      → PlanCastsAdded schema input out
      → PlanCastsAdded schema (project es input) (project es out)
  under_aggregate :
      (keys aggs : List LogicalExpr) (input out : LogicalPlan)
      → PlanCastsAdded schema input out
      → PlanCastsAdded schema (aggregate_by keys aggs input) (aggregate_by keys aggs out)
  under_limit :
      (n : ℕ) (input out : LogicalPlan)
      → PlanCastsAdded schema input out
      → PlanCastsAdded schema (limit n input) (limit n out)

pub record IsCoercedPlan (schema : TableSchema) (plan out : LogicalPlan) : Type 0 where
  pub same : erase_plan out ≡ erase_plan plan
  pub added : PlanCastsAdded schema plan out
  pub coerced : CoercedPlan out
