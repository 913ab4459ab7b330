-- ===== src/Logical/Meaning/Plans.antt =====
-- The rules that keep the rows of every node keep the rows of a plan.
use tiny_olap.Base.{List, take, ◌≡◌, refl, true, false, Option, some, ok, ◌>>=◌}
use tiny_olap.Logical.Plan.{
  int, float, str, boolean, null, column, literal, binary_op, aggregate, cast, LogicalPlan, scan,
  filter, project, aggregate_by, limit,
}
use tiny_olap.Logical.Optimizer.{rewrite, fold_node, eliminate_node, folding, elimination}
use tiny_olap.Logical.Coercion.{Panics}
use tiny_olap.Logical.Meaning.{Source, bind, select, project_rows, rows_of}
use tiny_olap.Logical.Meaning.Rules.{
  bind_cases, select-fold_expr, project_rows-fold_expr, select-true,
}

module _ {Row : Type 0} (src : Source Row) where
  -- The second plan has the rows of the first, where the first has rows.
  abbrev pub Keeps : LogicalPlan → LogicalPlan → Type 0
  Keeps plan out = (rows : List Row) → rows_of src plan ≡ some rows → rows_of src out ≡ some rows

  -- `plan` is rewritten without a panic, and keeps its rows.
  abbrev pub Rewritten : LogicalPlan → Panics LogicalPlan → Type 0
  Rewritten plan done = (out : LogicalPlan) × (done ≡ ok out) × Keeps plan out

  -- A node over an input, whose rows are those of the input put through `g`.
  node_step :
      (f : LogicalPlan → LogicalPlan) (build : LogicalPlan → LogicalPlan)
      (g : List Row → Option (List Row)) (input : LogicalPlan) (done : Panics LogicalPlan)
      → ((node : LogicalPlan) → Keeps node (f node))
      → ((node : LogicalPlan) → rows_of src (build node) ≡ bind (rows_of src node) g)
      → Rewritten input done
      → Rewritten (build input) (done >>= λ node. ok (f (build node)))
  node_step f build g input done hf law (new_input, e, k) = (
    f (build new_input),
    rw e refl,
    λ rows h.
        let (before, hb, hr) = bind_cases (rows_of src input) g rows (rw (← law input) h) in
        hf (build new_input) rows (rw (law new_input, k before hb) hr),
  )

  rewrite-Keeps :
      (f : LogicalPlan → LogicalPlan)
      → ((node : LogicalPlan) → Keeps node (f node))
      → (plan : LogicalPlan) → Rewritten plan (rewrite (λ node. ok (f node)) plan)
  unfolding rewrite rows_of
  rewrite-Keeps f hf (scan t) = (f (scan t), refl, hf (scan t))
  rewrite-Keeps f hf (filter p input) =
      node_step f (filter p) (select src p) input (rewrite (λ node. ok (f node)) input) hf
        (λ node. refl) (rewrite-Keeps f hf input)
  rewrite-Keeps f hf (project es input) =
      node_step f (project es) (project_rows src es) input (rewrite (λ node. ok (f node)) input) hf
        (λ node. refl) (rewrite-Keeps f hf input)
  rewrite-Keeps f hf (aggregate_by keys aggs input) =
      node_step f (aggregate_by keys aggs) (src.group keys aggs) input
        (rewrite (λ node. ok (f node)) input) hf (λ node. refl) (rewrite-Keeps f hf input)
  rewrite-Keeps f hf (limit n input) =
      node_step f (limit n) (λ rows. some (take n rows)) input (rewrite (λ node. ok (f node)) input)
        hf (λ node. refl) (rewrite-Keeps f hf input)

  fold_node-Keeps : (node : LogicalPlan) → Keeps node (fold_node node)
  unfolding fold_node rows_of
  fold_node-Keeps (filter p input) rows h =
      let (before, hb, hr) = bind_cases (rows_of src input) (select src p) rows h in
      rw hb (select-fold_expr src p before rows hr)
  fold_node-Keeps (project es input) rows h =
      let (before, hb, hr) = bind_cases (rows_of src input) (project_rows src es) rows h in
      rw hb (project_rows-fold_expr src es before rows hr)
  fold_node-Keeps (scan t) rows h = h
  fold_node-Keeps (aggregate_by keys aggs input) rows h = h
  fold_node-Keeps (limit n input) rows h = h

  eliminate_node-Keeps : (node : LogicalPlan) → Keeps node (eliminate_node node)
  unfolding eliminate_node rows_of
  eliminate_node-Keeps (filter (literal (boolean true)) input) rows h =
      let (before, hb, hr) =
        bind_cases (rows_of src input) (select src (literal (boolean true))) rows h in
      rw hb (rw (← select-true src before) hr)
  eliminate_node-Keeps (filter (literal (boolean false)) input) rows h = h
  eliminate_node-Keeps (filter (literal (int a)) input) rows h = h
  eliminate_node-Keeps (filter (literal (float a)) input) rows h = h
  eliminate_node-Keeps (filter (literal (str a)) input) rows h = h
  eliminate_node-Keeps (filter (literal null) input) rows h = h
  eliminate_node-Keeps (filter (column t c) input) rows h = h
  eliminate_node-Keeps (filter (binary_op l op r) input) rows h = h
  eliminate_node-Keeps (filter (aggregate f arg) input) rows h = h
  eliminate_node-Keeps (filter (cast e ty) input) rows h = h
  eliminate_node-Keeps (project es input) rows h = h
  eliminate_node-Keeps (scan t) rows h = h
  eliminate_node-Keeps (aggregate_by keys aggs input) rows h = h
  eliminate_node-Keeps (limit n input) rows h = h

  -- Folding and the removal of true filters, one after the other.
  pub rows_of-folding :
      (plan : LogicalPlan) → Rewritten plan (folding plan >>= λ folded. elimination folded)
  unfolding folding elimination
  rows_of-folding plan =
      let (folded, e, k) = rewrite-Keeps fold_node fold_node-Keeps plan in
      let (out, e', k') = rewrite-Keeps eliminate_node eliminate_node-Keeps folded in
      (out, rw e e', λ rows h. k' rows (k rows h))
