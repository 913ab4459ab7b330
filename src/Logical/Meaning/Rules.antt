-- ===== src/Logical/Meaning/Rules.antt =====
-- Constant folding and the removal of true filters keep what a plan means.
use tiny_olap.Base.{List, [], ◌∷◌, map, ◌≡◌, refl, ap, sym, true, false, Option, none, some}
use tiny_olap.Base.Int.{ℤ}
use tiny_olap.Logical.Plan.{
  LiteralValue, int, float, str, boolean, null, BinaryOp, eq, not_eq, lt, lt_eq, gt, gt_eq, and, or,
  LogicalExpr, column, literal, binary_op, aggregate, cast,
}
use tiny_olap.Logical.Folding.{fold_ints, fold_operands, fold_expr}
use tiny_olap.Logical.Meaning.{
  Source, bind, compare_ints, connect, apply_op, value, keep, select, values, project_rows,
}

pub bind_cases {ℓ κ} :
    {A : Type ℓ} {B : Type κ} (m : Option A) (f : A → Option B) (v : B)
    → bind m f ≡ some v
    → (a : A) × (m ≡ some a) × (f a ≡ some v)
bind_cases none f v h = cc
bind_cases (some a) f v h = (a, refl, h)

module _ {Row : Type 0} (src : Source Row) where
  -- Where the first has a result, the second has the same.
  ints_keep :
      (row : Row) (a : ℤ) (op : BinaryOp) (b : ℤ) (v : LiteralValue)
      → compare_ints a op b ≡ some v
      → value src row (fold_ints a op b) ≡ some v
  unfolding value fold_ints compare_ints
  ints_keep row a eq b v h = h
  ints_keep row a not_eq b v h = h
  ints_keep row a lt b v h = h
  ints_keep row a lt_eq b v h = h
  ints_keep row a gt b v h = h
  ints_keep row a gt_eq b v h = h
  ints_keep row a and b v h = cc
  ints_keep row a or b v h = cc

  true_and : (a v : LiteralValue) → apply_op src (boolean true) and a ≡ some v → a ≡ v
  unfolding apply_op connect
  true_and (boolean b) v h = cc
  true_and (int b) v h = cc
  true_and (float b) v h = cc
  true_and (str b) v h = cc
  true_and null v h = cc

  false_or : (a v : LiteralValue) → apply_op src (boolean false) or a ≡ some v → a ≡ v
  unfolding apply_op connect
  false_or (boolean b) v h = cc
  false_or (int b) v h = cc
  false_or (float b) v h = cc
  false_or (str b) v h = cc
  false_or null v h = cc

  false_and : (a v : LiteralValue) → apply_op src (boolean false) and a ≡ some v → boolean false ≡ v
  unfolding apply_op connect
  false_and (boolean b) v h = cc
  false_and (int b) v h = cc
  false_and (float b) v h = cc
  false_and (str b) v h = cc
  false_and null v h = cc

  true_or : (a v : LiteralValue) → apply_op src (boolean true) or a ≡ some v → boolean true ≡ v
  unfolding apply_op connect
  true_or (boolean b) v h = cc
  true_or (int b) v h = cc
  true_or (float b) v h = cc
  true_or (str b) v h = cc
  true_or null v h = cc

  -- Where an operation has a value, so has its folding, and it is the same.
  operands_keep :
      (row : Row) (l : LogicalExpr) (op : BinaryOp) (r : LogicalExpr) (v : LiteralValue)
      → value src row (binary_op l op r) ≡ some v
      → value src row (fold_operands l op r) ≡ some v
  unfolding value fold_operands apply_op
  operands_keep row (column t c) op r v h = h
  operands_keep row (binary_op m p n) op r v h = h
  operands_keep row (aggregate f arg) op r v h = h
  operands_keep row (cast y ty) op r v h = h
  operands_keep row (literal (float x)) op r v h = h
  operands_keep row (literal (str x)) op r v h = h
  operands_keep row (literal null) op r v h = h
  operands_keep row (literal (int x)) op (literal (int y)) v h = ints_keep row x op y v h
  operands_keep row (literal (int x)) op (column u d) v h = h
  operands_keep row (literal (int x)) op (literal (float n)) v h = h
  operands_keep row (literal (int x)) op (literal (str n)) v h = h
  operands_keep row (literal (int x)) op (literal (boolean n)) v h = h
  operands_keep row (literal (int x)) op (literal null) v h = h
  operands_keep row (literal (int x)) op (binary_op m p n) v h = h
  operands_keep row (literal (int x)) op (aggregate g z) v h = h
  operands_keep row (literal (int x)) op (cast y ty) v h = h
  operands_keep row (literal (boolean true)) eq r v h = h
  operands_keep row (literal (boolean true)) not_eq r v h = h
  operands_keep row (literal (boolean true)) lt r v h = h
  operands_keep row (literal (boolean true)) lt_eq r v h = h
  operands_keep row (literal (boolean true)) gt r v h = h
  operands_keep row (literal (boolean true)) gt_eq r v h = h
  operands_keep row (literal (boolean true)) and r v h =
      let (b, hb, hv) = bind_cases (value src row r) (apply_op src (boolean true) and) v h in
      rw (ap (λ w. some w) (sym (true_and b v hv))) hb
  operands_keep row (literal (boolean true)) or r v h =
      let (b, hb, hv) = bind_cases (value src row r) (apply_op src (boolean true) or) v h in
      ap (λ w. some w) (true_or b v hv)
  operands_keep row (literal (boolean false)) eq r v h = h
  operands_keep row (literal (boolean false)) not_eq r v h = h
  operands_keep row (literal (boolean false)) lt r v h = h
  operands_keep row (literal (boolean false)) lt_eq r v h = h
  operands_keep row (literal (boolean false)) gt r v h = h
  operands_keep row (literal (boolean false)) gt_eq r v h = h
  operands_keep row (literal (boolean false)) and r v h =
      let (b, hb, hv) = bind_cases (value src row r) (apply_op src (boolean false) and) v h in
      ap (λ w. some w) (false_and b v hv)
  operands_keep row (literal (boolean false)) or r v h =
      let (b, hb, hv) = bind_cases (value src row r) (apply_op src (boolean false) or) v h in
      rw (ap (λ w. some w) (sym (false_or b v hv))) hb

  -- Folding an expression keeps the value that it has.
  pub value-fold_expr :
      (row : Row) (e : LogicalExpr) (v : LiteralValue)
      → value src row e ≡ some v
      → value src row (fold_expr e) ≡ some v
  unfolding value fold_expr
  value-fold_expr row (binary_op l op r) v h =
      let (a, ha, h_rest) =
        bind_cases (value src row l) (λ x. bind (value src row r) (λ y. apply_op src x op y)) v h in
      let (b, hb, hv) = bind_cases (value src row r) (apply_op src a op) v h_rest in
      let left = value-fold_expr row l a ha in
      let right = value-fold_expr row r b hb in
      operands_keep row (fold_expr l) op (fold_expr r) v (rw (left, right, value) hv)
  value-fold_expr row (column t c) v h = h
  value-fold_expr row (literal w) v h = h
  value-fold_expr row (aggregate f arg) v h = h
  value-fold_expr row (cast e ty) v h = h

  keep_value :
      (m : Option LiteralValue) (row : Row) (rest out : List Row)
      → keep src m row rest ≡ some out
      → (v : LiteralValue) × (m ≡ some v)
  unfolding keep
  keep_value none row rest out h = cc
  keep_value (some v) row rest out h = (v, refl)

  pub select-fold_expr :
      (p : LogicalExpr) (rows out : List Row)
      → select src p rows ≡ some out
      → select src (fold_expr p) rows ≡ some out
  unfolding select
  select-fold_expr p [] out h = h
  select-fold_expr p (row ∷ rows) out h =
      let (rest, e, hk) = bind_cases (select src p rows) (keep src (value src row p) row) out h in
      let (v, hv) = keep_value (value src row p) row rest out hk in
      rw (select-fold_expr p rows rest e, value-fold_expr row p v hv) (rw (← hv) hk)

  values-fold_expr :
      (row : Row) (es : List LogicalExpr) (vs : List LiteralValue)
      → values src row es ≡ some vs
      → values src row (map fold_expr es) ≡ some vs
  unfolding values
  values-fold_expr row [] vs h = h
  values-fold_expr row (e ∷ es) vs h =
      let (v, hv, h_rest) =
        bind_cases (value src row e) (λ w. bind (values src row es) (λ ws. some (w ∷ ws))) vs h in
      let (ws, hws, hw) = bind_cases (values src row es) (λ ws. some (v ∷ ws)) vs h_rest in
      rw (value-fold_expr row e v hv, values-fold_expr row es ws hws) hw

  pub project_rows-fold_expr :
      (es : List LogicalExpr) (rows out : List Row)
      → project_rows src es rows ≡ some out
      → project_rows src (map fold_expr es) rows ≡ some out
  unfolding project_rows
  project_rows-fold_expr es [] out h = h
  project_rows-fold_expr es (row ∷ rows) out h =
      let (vs, hv, h_rest) =
        bind_cases (values src row es)
          (λ vs. bind (project_rows src es rows) (λ rest. some (src.row_of vs ∷ rest))) out h in
      let (rest, hr, ho) =
        bind_cases (project_rows src es rows) (λ rest. some (src.row_of vs ∷ rest)) out h_rest in
      rw (values-fold_expr row es vs hv, project_rows-fold_expr es rows rest hr) ho

  pub select-true : (rows : List Row) → select src (literal (boolean true)) rows ≡ some rows
  unfolding select value keep
  select-true [] = refl
  select-true (row ∷ rows) = rw (select-true rows) refl
