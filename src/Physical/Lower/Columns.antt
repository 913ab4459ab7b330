-- ===== src/Physical/Lower/Columns.antt =====
-- The columns of the scan are the ones that the plan mentions.
use tiny_olap.Base.{
  List, [], ◌∷◌, ◌++◌, ◌≡◌, refl, sym, inl, inr, Bool, true, false, ◌||◌, bytes_eq, Bool-cases, ok,
  first_step, ◌>>=◌, arith,
}
use tiny_olap.Catalog.{Name}
use tiny_olap.Logical.Plan.{
  LogicalExpr, column, literal, binary_op, aggregate, cast, LogicalPlan, scan, filter, project,
  aggregate_by, limit,
}
use tiny_olap.Logical.Coercion.{Panics}
use tiny_olap.Physical.Plan.{
  PhysicalPlan, full_scan, zone_map_scan, filter_by, project_to, hash_aggregate, limit_to,
}
use tiny_olap.Physical.Lower.{
  Floats, bytes_ltb, insert, collect_expr_columns, collect_list, collect_columns, lower_expr,
  lower_exprs, lower_agg_specs, lower_plan, lower,
}

unfoldable pub contains : Name → List Name → Bool
contains c [] = false
contains c (d ∷ ds) = bytes_eq c d || contains c ds

unfoldable pub mentions : Name → LogicalExpr → Bool
mentions c (column t d) = bytes_eq c d
mentions c (literal v) = false
mentions c (binary_op l op r) = mentions c l || mentions c r
mentions c (aggregate f arg) = mentions c arg
mentions c (cast e ty) = mentions c e

unfoldable pub any_mentions : Name → List LogicalExpr → Bool
any_mentions c [] = false
any_mentions c (e ∷ es) = mentions c e || any_mentions c es

unfoldable pub plan_mentions : Name → LogicalPlan → Bool
plan_mentions c (scan t) = false
plan_mentions c (filter p input) = mentions c p || plan_mentions c input
plan_mentions c (project es input) = any_mentions c es || plan_mentions c input
plan_mentions c (aggregate_by keys aggs input) =
    any_mentions c keys || (any_mentions c aggs || plan_mentions c input)
plan_mentions c (limit n input) = plan_mentions c input

bytes_ltb_total : (c d : Name) → bytes_ltb c d ≡ false → bytes_ltb d c ≡ false → c ≡ d
unfolding bytes_ltb
bytes_ltb_total [] [] h k = refl
bytes_ltb_total [] (y ∷ ys) h k = cc
bytes_ltb_total (x ∷ xs) [] h k = cc
bytes_ltb_total (x ∷ xs) (y ∷ ys) h k = ground (arith, bytes_ltb_total xs ys)

or_comm4 : (a b c : Bool) → (a || (b || c)) ≡ (b || (a || c))
or_comm4 true true c = refl
or_comm4 true false c = refl
or_comm4 false true c = refl
or_comm4 false false c = refl

or_idem : (a b : Bool) → (a || (a || b)) ≡ (a || b)
or_idem true b = refl
or_idem false b = refl

or_swap : (a b x : Bool) → (b || (a || x)) ≡ ((a || b) || x)
or_swap true true x = refl
or_swap true false x = refl
or_swap false true x = refl
or_swap false false x = refl

or_assoc : (a b c : Bool) → ((a || b) || c) ≡ (a || (b || c))
or_assoc true b c = refl
or_assoc false b c = refl

contains-insert :
    (c d : Name) (ds : List Name) → contains c (insert d ds) ≡ (bytes_eq c d || contains c ds)
unfolding contains insert
contains-insert c d [] = refl
contains-insert c d (e ∷ ds) = elim (Bool-cases (bytes_ltb d e)) [
  | inl h ↦ rw (h, insert) refl
  | inr h ↦ elim (Bool-cases (bytes_ltb e d)) [
    | inl k ↦
        rw (h, k, contains-insert c d ds) (or_comm4 (bytes_eq c e) (bytes_eq c d) (contains c ds))
    | inr k ↦ rw (h, k, bytes_ltb_total d e h k) (sym (or_idem (bytes_eq c e) (contains c ds)))
  ]
]

contains-collect_expr_columns :
    (c : Name) (e : LogicalExpr) (cols : List Name)
    → contains c (collect_expr_columns e cols) ≡ (mentions c e || contains c cols)
unfolding collect_expr_columns mentions
contains-collect_expr_columns c (column t d) cols = contains-insert c d cols
contains-collect_expr_columns c (literal v) cols = refl
contains-collect_expr_columns c (binary_op l op r) cols =
    rw
      (
        contains-collect_expr_columns c r (collect_expr_columns l cols),
        contains-collect_expr_columns c l cols,
      )
      (or_swap (mentions c l) (mentions c r) (contains c cols))
contains-collect_expr_columns c (aggregate f arg) cols = contains-collect_expr_columns c arg cols
contains-collect_expr_columns c (cast e ty) cols = contains-collect_expr_columns c e cols

contains-collect_list :
    (c : Name) (es : List LogicalExpr) (cols : List Name)
    → contains c (collect_list es cols) ≡ (any_mentions c es || contains c cols)
unfolding collect_list any_mentions
contains-collect_list c [] cols = refl
contains-collect_list c (e ∷ es) cols =
    rw
      (
        contains-collect_list c es (collect_expr_columns e cols),
        contains-collect_expr_columns c e cols,
      )
      (or_swap (mentions c e) (any_mentions c es) (contains c cols))

any_mentions-append :
    (c : Name) (xs ys : List LogicalExpr)
    → any_mentions c (xs ++ ys) ≡ (any_mentions c xs || any_mentions c ys)
unfolding any_mentions
any_mentions-append c [] ys = refl
any_mentions-append c (x ∷ xs) ys =
    rw (any_mentions-append c xs ys)
      (sym (or_assoc (mentions c x) (any_mentions c xs) (any_mentions c ys)))

contains-collect_columns :
    (c : Name) (plan : LogicalPlan) (cols : List Name)
    → contains c (collect_columns plan cols) ≡ (plan_mentions c plan || contains c cols)
unfolding collect_columns plan_mentions
contains-collect_columns c (scan t) cols = refl
contains-collect_columns c (filter p input) cols =
    rw
      (
        contains-collect_columns c input (collect_expr_columns p cols),
        contains-collect_expr_columns c p cols,
      )
      (or_swap (mentions c p) (plan_mentions c input) (contains c cols))
contains-collect_columns c (project es input) cols =
    rw (contains-collect_columns c input (collect_list es cols), contains-collect_list c es cols)
      (or_swap (any_mentions c es) (plan_mentions c input) (contains c cols))
contains-collect_columns c (aggregate_by keys aggs input) cols =
    rw
      (
        contains-collect_columns c input (collect_list (keys ++ aggs) cols),
        contains-collect_list c (keys ++ aggs) cols,
        any_mentions-append c keys aggs,
      )
      (regroup (any_mentions c keys) (any_mentions c aggs) (plan_mentions c input)
        (contains c cols))
  where
    regroup : (a b x y : Bool) → (x || ((a || b) || y)) ≡ ((a || (b || x)) || y)
    regroup true b true y = refl
    regroup true b false y = refl
    regroup false b x y = or_swap b x y
contains-collect_columns c (limit n input) cols = contains-collect_columns c input cols

-- The columns that the scan of a plan reads.
unfoldable pub scan_columns : PhysicalPlan → List Name
scan_columns (full_scan t cols) = cols
scan_columns (zone_map_scan t cols p) = cols
scan_columns (filter_by p input) = scan_columns input
scan_columns (project_to es input) = scan_columns input
scan_columns (hash_aggregate keys aggs input) = scan_columns input
scan_columns (limit_to n input) = scan_columns input

or_none : (c : Name) (b : Bool) → (b || contains c []) ≡ b
unfolding contains
or_none c true = refl
or_none c false = refl

same_value : (a b : PhysicalPlan) (m : Panics PhysicalPlan) → m ≡ ok a → m ≡ ok b → a ≡ b
same_value a b m h k = cc

-- A node whose scan is that of its input, built behind the other parts of it.
built :
    (m : Panics PhysicalPlan) (build : PhysicalPlan → PhysicalPlan) (cols : List Name)
    (out : PhysicalPlan)
    → ((child : PhysicalPlan) → scan_columns (build child) ≡ scan_columns child)
    → ((child : PhysicalPlan) → m ≡ ok child → scan_columns child ≡ cols)
    → (m >>= λ child. ok (build child)) ≡ ok out
    → scan_columns out ≡ cols
built m build cols out law ih h =
    let (child, e, h') = first_step m (λ child. ok (build child)) out h in
    rw (← same_value (build child) out (ok (build child)) refl h', law child) (ih child e)

module _ (floats : Floats) where
  scan_columns-lower_plan :
      (plan : LogicalPlan) (cols : List Name) (out : PhysicalPlan)
      → lower_plan floats plan cols ≡ ok out
      → scan_columns out ≡ cols
  unfolding lower_plan scan_columns
  scan_columns-lower_plan (scan t) cols out h =
      rw (← same_value (full_scan t cols) out (ok (full_scan t cols)) refl h) refl
  scan_columns-lower_plan (filter p input) cols out h =
      let child = lower_plan floats input cols in
      let (x, _, h1) =
        first_step (lower_expr floats p) (λ x. child >>= λ c. ok (filter_by x c)) out h in
      built child (filter_by x) cols out (λ c. refl) (scan_columns-lower_plan input cols) h1
  scan_columns-lower_plan (project es input) cols out h =
      let child = lower_plan floats input cols in
      let (x, _, h1) =
        first_step (lower_exprs floats es) (λ x. child >>= λ c. ok (project_to x c)) out h in
      built child (project_to x) cols out (λ c. refl) (scan_columns-lower_plan input cols) h1
  scan_columns-lower_plan (aggregate_by keys aggs input) cols out h =
      let child = lower_plan floats input cols in
      let (x, _, h1) =
        first_step (lower_exprs floats keys)
          (λ x. lower_agg_specs floats aggs >>= λ y. child >>= λ c. ok (hash_aggregate x y c)) out
          h in
      let (y, _, h2) =
        first_step (lower_agg_specs floats aggs) (λ y. child >>= λ c. ok (hash_aggregate x y c)) out
          h1 in
      built child (hash_aggregate x y) cols out (λ c. refl) (scan_columns-lower_plan input cols) h2
  scan_columns-lower_plan (limit n input) cols out h =
      built (lower_plan floats input cols) (limit_to n) cols out (λ c. refl)
        (scan_columns-lower_plan input cols) h

  -- The scan of a lowered plan reads a column exactly when an expression of the plan mentions it.
  pub lower-scan_columns :
      (plan : LogicalPlan) (out : PhysicalPlan) (c : Name)
      → lower floats plan ≡ ok out
      → contains c (scan_columns out) ≡ plan_mentions c plan
  unfolding lower
  lower-scan_columns plan out c h =
      rw
        (
          scan_columns-lower_plan plan (collect_columns plan []) out h,
          contains-collect_columns c plan [],
        )
        (or_none c (plan_mentions c plan))
