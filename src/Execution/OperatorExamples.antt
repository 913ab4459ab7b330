-- ===== src/Execution/OperatorExamples.antt =====
-- The theorems of the filter and of the projection at concrete inputs.
use tiny_olap.Base.{
  ℕ, suc, ◌<◌, List, [], ◌∷◌, map, flatten, ◌≡◌, refl, ap, Bool, true, false, length, Option, none,
  some, get_elem?, All, bytes_eq, bytes_eq→eq, if◌then◌else◌, Bool-cases, inl, inr, ok, err, panic,
  ◌>>=◌, arith,
}
use tiny_olap.Base.Int.{pos, ltb_ℤ}
use tiny_olap.Catalog.{Name, i32, TableSchema}
use tiny_olap.Logical.Plan.{sum}
use tiny_olap.Execution.Builder.WellTyped.{WellTyped}
use tiny_olap.Physical.Plan.{AggSpec, PhysicalPlan, full_scan, filter_by, hash_aggregate, limit_to}
use tiny_olap.Physical.Plan.{
  LiteralValue, i64_value, CmpOp, cmp_gt, PhysicalExpr, column_ref, constant, compare_with,
}
use tiny_olap.Execution.Batch.{
  ExecutionError, arrow_error, Cells, Batch, Mask, Outcome, ColumnarValue, array, scalar, Arrow,
  column_named,
}
use tiny_olap.Execution.Predicate.{evaluate_operand, to_arrow_datum, evaluate_predicate}
use tiny_olap.Execution.Filter.Rows.{
  kept_rows, IsFilter, HasMask, selected, answers, state, answers-selected,
}
use tiny_olap.Execution.Project as Project
use tiny_olap.Execution.Project.Columns.{columns_named, Picked, IsProject, next_batch-columns_named}

above : LiteralValue → LiteralValue → Bool
above (i64_value a) (i64_value b) = ltb_ℤ b a
above a b = false

compare_cells : CmpOp → ColumnarValue → ColumnarValue → Outcome Mask
compare_cells op (array cells) (scalar v) = ok (map (λ c. above c v) cells)
compare_cells op l r = err arrow_error

-- A kernel that knows `>` alone.
abbrev gt_kernel : Arrow
gt_kernel = record { compare_values = compare_cells; connect_masks = λ op l r. err arrow_error }

-- A row is the cell of the first column.
abbrev first_column : Batch → Cells
first_column [] = []
first_column ((name, cells) ∷ rest) = cells

abbrev filter_columns : Batch → Mask → Outcome Batch
filter_columns batch mask = ok (map (λ col. (col.0, kept_rows mask col.1)) batch)

abbrev row_count : Batch → ℕ
row_count batch = length (first_column batch)

filter_columns-IsFilter : IsFilter first_column filter_columns row_count
filter_columns-IsFilter = record {
  kept = λ b mask h. (map (λ col. (col.0, kept_rows mask col.1)) b, refl, kept_first b mask h);
  counted = λ b. refl;
}
  where
    kept_first :
        (b : Batch) (mask : Mask)
        → length mask ≡ length (first_column b)
        → first_column (map (λ col. (col.0, kept_rows mask col.1)) b)
          ≡ kept_rows mask (first_column b)
    kept_first [] [] h = unfold kept_rows in refl
    kept_first [] (m ∷ mask) h = absurd (omega arith)
    kept_first ((name, cells) ∷ rest) mask h = refl

abbrev x_gt_4 : PhysicalExpr
x_gt_4 = compare_with (column_ref (120 ∷ [])) cmp_gt (constant (i64_value (pos 4)))

abbrev low_batch : Batch
low_batch = (120 ∷ [], i64_value (pos 3) ∷ []) ∷ []

abbrev mixed_batch : Batch
mixed_batch = (120 ∷ [], i64_value (pos 1) ∷ i64_value (pos 9) ∷ []) ∷ []

low_mask :
    HasMask gt_kernel filter_columns row_count first_column filter_columns-IsFilter x_gt_4 low_batch
low_mask = record { mask = false ∷ []; evaluated = evaluated; full = refl }
  where
    evaluated : evaluate_predicate gt_kernel x_gt_4 low_batch ≡ ok (false ∷ [])
    evaluated =
        unfold evaluate_predicate in
        unfold evaluate_operand in
        unfold to_arrow_datum in
        unfold column_named in unfold bytes_eq in unfold compare_cells in unfold above in refl

mixed_mask :
    HasMask gt_kernel filter_columns row_count first_column filter_columns-IsFilter x_gt_4
      mixed_batch
mixed_mask = record { mask = false ∷ true ∷ []; evaluated = evaluated; full = refl }
  where
    evaluated : evaluate_predicate gt_kernel x_gt_4 mixed_batch ≡ ok (false ∷ true ∷ [])
    evaluated =
        unfold evaluate_predicate in
        unfold evaluate_operand in
        unfold to_arrow_datum in
        unfold column_named in unfold bytes_eq in unfold compare_cells in unfold above in refl

-- A batch of which nothing is left, and one of which a row is.
abbrev two_batches : List Batch
two_batches = low_batch ∷ mixed_batch ∷ []

answers-selected_example :
    (fs : List Batch) × (answers gt_kernel filter_columns row_count first_column
        filter_columns-IsFilter x_gt_4 3
        (state gt_kernel filter_columns row_count first_column filter_columns-IsFilter x_gt_4
          two_batches)
      ≡ ok fs)
    × (flatten (map first_column fs)
        ≡ selected gt_kernel filter_columns row_count first_column filter_columns-IsFilter x_gt_4
            two_batches
            (low_mask, (mixed_mask, tt)))
    × All (λ f. 0 < row_count f) fs
answers-selected_example =
    answers-selected gt_kernel filter_columns row_count first_column filter_columns-IsFilter x_gt_4
      two_batches (low_mask, (mixed_mask, tt))

position : Batch → Name → Outcome ℕ
position [] name = err arrow_error
position ((n, cells) ∷ rest) name =
    let later = position rest name in if bytes_eq n name then ok 0 else (later >>= λ i. ok (suc i))

picked_column : Option (Name × Cells) → Outcome Batch → Outcome Batch
picked_column none rest = panic
picked_column (some col) rest = rest >>= λ cols. ok (col ∷ cols)

pick : Batch → List ℕ → Outcome Batch
unfolding picked_column
pick batch [] = ok []
pick batch (i ∷ is) = picked_column (get_elem? batch i) (pick batch is)

position_found :
    (b : Batch) (name : Name) (cells : Cells)
    → column_named name b ≡ ok cells
    → (i : ℕ) × (position b name ≡ ok i) × (get_elem? b i ≡ some (name, cells))
unfolding position column_named
position_found [] name cells h = cc
position_found ((n, held) ∷ rest) name cells h = elim (Bool-cases (bytes_eq n name)) [
  | inl same ↦
      let is_name : n ≡ name = bytes_eq→eq n name same in
      let is_held : held ≡ cells = the_cells held cells refl (rw same at h) in
      (0, rw same refl, rw (is_name, is_held) refl)
  | inr other ↦
      let (i, e, found) = position_found rest name cells (rw other at h) in
      (suc i, rw (other, e) refl, found)
]
  where
    the_cells : (a b : Cells) {m : Outcome Cells} → m ≡ ok a → m ≡ ok b → a ≡ b
    the_cells a b e e' = cc

position_missing :
    (b : Batch) (name : Name) (e : ExecutionError)
    → column_named name b ≡ err e
    → position b name ≡ err e
unfolding position column_named
position_missing [] name e h = let same : arrow_error ≡ e = cc in ap (λ x. err x) same
position_missing ((n, held) ∷ rest) name e h = elim (Bool-cases (bytes_eq n name)) [
  | inl same ↦ absurd (never held refl (rw same at h))
  | inr other ↦ rw (other, position_missing rest name e (rw other at h)) refl
]
  where
    never : (a : Cells) {m : Outcome Cells} → m ≡ ok a → m ≡ err e → ⊥
    never a h k = cc

pick-Picked : (b : Batch) (is : List ℕ) (cols : Batch) → Picked b is cols → pick b is ≡ ok cols
unfolding pick picked_column Picked
pick-Picked b [] [] h = refl
pick-Picked b [] (col ∷ cols) h = absurd h
pick-Picked b (i ∷ is) [] h = absurd h
pick-Picked b (i ∷ is) (col ∷ cols) (first, h) = rw (first, pick-Picked b is cols h) refl

pick-IsProject : IsProject position pick
pick-IsProject = record { found = position_found; missing = position_missing; picked = pick-Picked }

abbrev two_columns : Batch
two_columns = (97 ∷ [], []) ∷ (98 ∷ [], []) ∷ []

next_batch-columns_named_example :
    Project.next_batch position pick (record {
      projections = column_ref (98 ∷ []) ∷ column_ref (97 ∷ []) ∷ [];
      child = ok two_columns ∷ [];
    })
    ≡ (
      some (columns_named ((98 ∷ []) ∷ (97 ∷ []) ∷ []) two_columns),
      record { projections = column_ref (98 ∷ []) ∷ column_ref (97 ∷ []) ∷ []; child = [] },
    )
next_batch-columns_named_example =
    next_batch-columns_named position pick pick-IsProject ((98 ∷ []) ∷ (97 ∷ []) ∷ []) two_columns
      []

abbrev x_schema : TableSchema
x_schema = record {
  name = 116 ∷ [];
  columns = record { name = 120 ∷ []; data_type = i32 } ∷ [];
  sort_key = [];
}

abbrev x_spec : AggSpec
x_spec = record { func = sum; arg = column_ref (120 ∷ []); output_name = 115 ∷ [] }

-- SELECT SUM(x) FROM t WHERE x > 4 GROUP BY x LIMIT 5.
abbrev sum_plan : PhysicalPlan
sum_plan = limit_to 5 (
    hash_aggregate (column_ref (120 ∷ []) ∷ []) (x_spec ∷ [])
      (filter_by x_gt_4 (full_scan (116 ∷ []) ((120 ∷ []) ∷ []))))
