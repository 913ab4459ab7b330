-- ===== src/Logical/Coercion/Laws.antt =====
-- What coercion does to an expression.
use tiny_olap.Base.{◌≡◌, refl, inl, inr, true, false, some, ok, arith, if◌then◌else◌, Bool-cases}
use tiny_olap.Catalog.{Name, DataType, ColumnSchema, TableSchema, find_column}
use tiny_olap.Logical.Plan.{
  LiteralValue, BinaryOp, eq, not_eq, lt, lt_eq, gt, gt_eq, and, or, AggFunc, LogicalExpr, column,
  literal, binary_op, aggregate, cast,
}
use tiny_olap.Logical.Coercion.{is_comparison_op, type_of, coerce_comparison, coerce_expr}

-- Every column outside an aggregate is one of the schema.
abbrev pub Known : TableSchema → LogicalExpr → Type 0
Known schema (column t c) = (s : ColumnSchema) × (find_column c schema.columns ≡ some s)
Known schema (literal v) = Unit
Known schema (binary_op l op r) = Known schema l × Known schema r
Known schema (aggregate f arg) = Unit
Known schema (cast e ty) = Known schema e

-- The expression without its casts.
unfoldable pub erase_casts : LogicalExpr → LogicalExpr
erase_casts (binary_op l op r) = binary_op (erase_casts l) op (erase_casts r)
erase_casts (cast e ty) = erase_casts e
erase_casts (column t c) = column t c
erase_casts (literal v) = literal v
erase_casts (aggregate f arg) = aggregate f arg

-- The six comparisons; the other two operators connect truth values.
abbrev pub IsComparison : BinaryOp → Type 0
IsComparison eq = Unit
IsComparison not_eq = Unit
IsComparison lt = Unit
IsComparison lt_eq = Unit
IsComparison gt = Unit
IsComparison gt_eq = Unit
IsComparison and = ⊥
IsComparison or = ⊥

-- No comparison is left between a column and a bare literal.
abbrev pub NotBare : LogicalExpr → BinaryOp → LogicalExpr → Type 0
NotBare (column t c) op (literal v) = ¬ IsComparison op
NotBare (literal v) op (column t c) = ¬ IsComparison op
NotBare l op r = Unit

abbrev pub Coerced : LogicalExpr → Type 0
Coerced (binary_op l op r) = NotBare l op r × Coerced l × Coerced r
Coerced (cast e ty) = Coerced e
Coerced (column t c) = Unit
Coerced (literal v) = Unit
Coerced (aggregate f arg) = Unit

-- An expression and the same one with casts added: around literals compared with a column, each to
-- the type that the schema has for the column, and nowhere else.
pub data CastsAdded (schema : TableSchema) : LogicalExpr → LogicalExpr → Type 0 where
  same_column : (t c : Name) → CastsAdded schema (column t c) (column t c)
  same_literal : (v : LiteralValue) → CastsAdded schema (literal v) (literal v)
  same_aggregate :
      (f : AggFunc) (arg : LogicalExpr) → CastsAdded schema (aggregate f arg) (aggregate f arg)
  under_cast :
      (e out : LogicalExpr) (ty : DataType)
      → CastsAdded schema e out
      → CastsAdded schema (cast e ty) (cast out ty)
  in_operands :
      (a b l r : LogicalExpr) (op : BinaryOp)
      → CastsAdded schema a l
      → CastsAdded schema b r
      → CastsAdded schema (binary_op a op b) (binary_op l op r)
  around_right :
      (t c : Name) (v : LiteralValue) (op : BinaryOp) (a b : LogicalExpr) (s : ColumnSchema)
      → CastsAdded schema a (column t c)
      → CastsAdded schema b (literal v)
      → IsComparison op
      → find_column c schema.columns ≡ some s
      → CastsAdded schema
          (binary_op a op b)
          (binary_op (column t c) op (cast (literal v) s.data_type))
  around_left :
      (t c : Name) (v : LiteralValue) (op : BinaryOp) (a b : LogicalExpr) (s : ColumnSchema)
      → CastsAdded schema a (literal v)
      → CastsAdded schema b (column t c)
      → IsComparison op
      → find_column c schema.columns ≡ some s
      → CastsAdded schema
          (binary_op a op b)
          (binary_op (cast (literal v) s.data_type) op (column t c))

pub record IsCoercion (schema : TableSchema) (e out : LogicalExpr) : Type 0 where
  pub same : erase_casts out ≡ erase_casts e
  pub added : CastsAdded schema e out
  pub coerced : Coerced out
  pub known : Known schema out

type_of-Known :
    (schema : TableSchema) (c : Name) (s : ColumnSchema)
    → find_column c schema.columns ≡ some s
    → type_of schema c ≡ ok s.data_type
unfolding type_of
type_of-Known schema c s h = rw (h, type_of) refl

IsComparison-op : (op : BinaryOp) → is_comparison_op op ≡ true → IsComparison op
unfolding is_comparison_op
IsComparison-op eq h = tt
IsComparison-op not_eq h = tt
IsComparison-op lt h = tt
IsComparison-op lt_eq h = tt
IsComparison-op gt h = tt
IsComparison-op gt_eq h = tt
IsComparison-op and h = ground arith
IsComparison-op or h = ground arith

not_IsComparison : (op : BinaryOp) → is_comparison_op op ≡ false → ¬ IsComparison op
unfolding is_comparison_op
not_IsComparison eq h = λ _. ground arith
not_IsComparison not_eq h = λ _. ground arith
not_IsComparison lt h = λ _. ground arith
not_IsComparison lt_eq h = λ _. ground arith
not_IsComparison gt h = λ _. ground arith
not_IsComparison gt_eq h = λ _. ground arith
not_IsComparison and h = λ x. x
not_IsComparison or h = λ x. x

kept :
    (schema : TableSchema) (a l : LogicalExpr) (op : BinaryOp) (b r : LogicalExpr)
    → IsCoercion schema a l
    → IsCoercion schema b r
    → NotBare l op r
    → IsCoercion schema (binary_op a op b) (binary_op l op r)
unfolding erase_casts
kept schema a l op b r hl hr bare = record {
  same = cc (hl.same, hr.same);
  added = in_operands a b l r op hl.added hr.added;
  coerced = (bare, hl.coerced, hr.coerced);
  known = (hl.known, hr.known);
}

comparison :
    (schema : TableSchema) (a b l : LogicalExpr) (op : BinaryOp) (r : LogicalExpr)
    → IsCoercion schema a l
    → IsCoercion schema b r
    → IsComparison op
    → (out : LogicalExpr) × (coerce_comparison schema l op r ≡ ok out)
      × IsCoercion schema (binary_op a op b) out
unfolding coerce_comparison erase_casts
comparison schema a b (column t c) op (literal v) hl hr is_cmp =
    let (s, found) = hl.known in
    (
      binary_op (column t c) op (cast (literal v) s.data_type),
      rw (type_of-Known schema c s found) refl,
      record {
        same = cc (hl.same, hr.same);
        added = around_right t c v op a b s hl.added hr.added is_cmp found;
        coerced = (tt, tt, tt);
        known = (hl.known, tt);
      },
    )
comparison schema a b (literal v) op (column t c) hl hr is_cmp =
    let (s, found) = hr.known in
    (
      binary_op (cast (literal v) s.data_type) op (column t c),
      rw (type_of-Known schema c s found) refl,
      record {
        same = cc (hl.same, hr.same);
        added = around_left t c v op a b s hl.added hr.added is_cmp found;
        coerced = (tt, tt, tt);
        known = (tt, hr.known);
      },
    )
comparison schema a b (column t c) op (column u d) hl hr is_cmp = (
  binary_op (column t c) op (column u d),
  refl,
  kept schema a (column t c) op b (column u d) hl hr tt,
)
comparison schema a b (column t c) op (binary_op m p n) hl hr is_cmp = (
  binary_op (column t c) op (binary_op m p n),
  refl,
  kept schema a (column t c) op b (binary_op m p n) hl hr tt,
)
comparison schema a b (column t c) op (aggregate g x) hl hr is_cmp = (
  binary_op (column t c) op (aggregate g x),
  refl,
  kept schema a (column t c) op b (aggregate g x) hl hr tt,
)
comparison schema a b (column t c) op (cast y ty) hl hr is_cmp = (
  binary_op (column t c) op (cast y ty),
  refl,
  kept schema a (column t c) op b (cast y ty) hl hr tt,
)
comparison schema a b (literal v) op (literal w) hl hr is_cmp = (
  binary_op (literal v) op (literal w),
  refl,
  kept schema a (literal v) op b (literal w) hl hr tt,
)
comparison schema a b (literal v) op (binary_op m p n) hl hr is_cmp = (
  binary_op (literal v) op (binary_op m p n),
  refl,
  kept schema a (literal v) op b (binary_op m p n) hl hr tt,
)
comparison schema a b (literal v) op (aggregate g x) hl hr is_cmp = (
  binary_op (literal v) op (aggregate g x),
  refl,
  kept schema a (literal v) op b (aggregate g x) hl hr tt,
)
comparison schema a b (literal v) op (cast y ty) hl hr is_cmp = (
  binary_op (literal v) op (cast y ty),
  refl,
  kept schema a (literal v) op b (cast y ty) hl hr tt,
)
comparison schema a b (binary_op m o n) op r hl hr is_cmp =
    (binary_op (binary_op m o n) op r, refl, kept schema a (binary_op m o n) op b r hl hr tt)
comparison schema a b (aggregate f arg) op r hl hr is_cmp =
    (binary_op (aggregate f arg) op r, refl, kept schema a (aggregate f arg) op b r hl hr tt)
comparison schema a b (cast e ty) op r hl hr is_cmp =
    (binary_op (cast e ty) op r, refl, kept schema a (cast e ty) op b r hl hr tt)

-- And and Or keep their coerced operands.
connective :
    (l : LogicalExpr) (op : BinaryOp) (r : LogicalExpr) → ¬ IsComparison op → NotBare l op r
connective (column t c) op (column u d) h = tt
connective (column t c) op (literal w) h = h
connective (column t c) op (binary_op m p n) h = tt
connective (column t c) op (aggregate g x) h = tt
connective (column t c) op (cast y ty) h = tt
connective (literal v) op (column u d) h = h
connective (literal v) op (literal w) h = tt
connective (literal v) op (binary_op m p n) h = tt
connective (literal v) op (aggregate g x) h = tt
connective (literal v) op (cast y ty) h = tt
connective (binary_op a o b) op r h = tt
connective (aggregate f arg) op r h = tt
connective (cast e ty) op r h = tt

pair :
    (schema : TableSchema) (a b l : LogicalExpr) (op : BinaryOp) (r : LogicalExpr)
    → IsCoercion schema a l
    → IsCoercion schema b r
    → (out : LogicalExpr) × ((if is_comparison_op op
          then coerce_comparison schema l op r
          else ok (binary_op l op r))
        ≡ ok out)
      × IsCoercion schema (binary_op a op b) out
pair schema a b l op r hl hr = elim (Bool-cases (is_comparison_op op)) [
  | inl e ↦ rw e (comparison schema a b l op r hl hr (IsComparison-op op e))
  | inr e ↦ rw e (
    binary_op l op r,
    refl,
    kept schema a l op b r hl hr (connective l op r (not_IsComparison op e)),
  )
]

-- Over known columns coercion does not panic. It adds casts only around literals compared with a
-- column, each to the type that the schema has for the column, and changes nothing else; it leaves
-- no column compared with a bare literal by any of the six comparisons.
pub coerce_expr-IsCoercion :
    (schema : TableSchema) (e : LogicalExpr)
    → Known schema e
    → (out : LogicalExpr) × (coerce_expr schema e ≡ ok out) × IsCoercion schema e out
unfolding coerce_expr erase_casts
coerce_expr-IsCoercion schema (binary_op l op r) (kl, kr) =
    let (left, el, hl) = coerce_expr-IsCoercion schema l kl in
    let (right, er, hr) = coerce_expr-IsCoercion schema r kr in
    let (out, e, h) = pair schema l r left op right hl hr in (out, rw (el, er) e, h)
coerce_expr-IsCoercion schema (cast e ty) k =
    let (inner, eq_inner, h) = coerce_expr-IsCoercion schema e k in
    (
      cast inner ty,
      rw eq_inner refl,
      record {
        same = h.same;
        added = under_cast e inner ty h.added;
        coerced = h.coerced;
        known = h.known;
      },
    )
coerce_expr-IsCoercion schema (column t c) k =
    (column t c, refl, record { same = refl; added = same_column t c; coerced = tt; known = k })
coerce_expr-IsCoercion schema (literal v) k =
    (literal v, refl, record { same = refl; added = same_literal v; coerced = tt; known = tt })
coerce_expr-IsCoercion schema (aggregate f arg) k = (
  aggregate f arg,
  refl,
  record { same = refl; added = same_aggregate f arg; coerced = tt; known = tt },
)
