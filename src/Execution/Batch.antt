-- ===== src/Execution/Batch.antt =====
-- tinyolap/src/execution/executor.rs: errors and batches. A batch is its named columns, and the
-- cells of a column are values of its type. What the arrow crate computes is a parameter.
use tiny_olap.Base.{
  ℕ, List, [], ◌∷◌, map, ◌≡◌, Bool, not, ◌==◌, ltb, leb, ◌&&◌, ◌||◌, bytes_eq, if◌then◌else◌,
  Result, ok, err,
}
use tiny_olap.Base.Int.{ℤ, ltb_ℤ, leb_ℤ, eqb_ℤ}
use tiny_olap.Catalog.{Name}
use tiny_olap.Physical.Plan.{
  LiteralValue, i64_value, u64_value, CmpOp, cmp_eq, cmp_not_eq, cmp_lt, cmp_lt_eq, cmp_gt,
  cmp_gt_eq, LogicalOp, op_and, op_or,
}

pub data ExecutionError : Type 0 where
  io_error : ExecutionError
  arrow_error : ExecutionError
  invalid_data : ExecutionError

abbrev pub Cells : Type 0
Cells = List LiteralValue

abbrev pub Batch : Type 0
Batch = List (Name × Cells)

abbrev pub Mask : Type 0
Mask = List Bool

abbrev pub Outcome {ℓ} : Type ℓ → Type ℓ
Outcome A = Result ExecutionError A

-- A column as an array, or a literal in place of one.
pub data ColumnarValue : Type 0 where
  array : Cells → ColumnarValue
  scalar : LiteralValue → ColumnarValue

-- The kernels of arrow that the operators call.
pub record Arrow : Type 0 where
  pub compare_values : CmpOp → ColumnarValue → ColumnarValue → Outcome Mask
  pub connect_masks : LogicalOp → Mask → Mask → Outcome Mask

abbrev pub holds_ℤ : CmpOp → ℤ → ℤ → Bool
holds_ℤ cmp_eq a b = eqb_ℤ a b
holds_ℤ cmp_not_eq a b = not (eqb_ℤ a b)
holds_ℤ cmp_lt a b = ltb_ℤ a b
holds_ℤ cmp_lt_eq a b = leb_ℤ a b
holds_ℤ cmp_gt a b = ltb_ℤ b a
holds_ℤ cmp_gt_eq a b = leb_ℤ b a

abbrev pub holds_ℕ : CmpOp → ℕ → ℕ → Bool
holds_ℕ cmp_eq a b = a == b
holds_ℕ cmp_not_eq a b = not (a == b)
holds_ℕ cmp_lt a b = ltb a b
holds_ℕ cmp_lt_eq a b = leb a b
holds_ℕ cmp_gt a b = ltb b a
holds_ℕ cmp_gt_eq a b = leb b a

abbrev pub zip_mask : (Bool → Bool → Bool) → Mask → Mask → Mask
zip_mask f [] ys = []
zip_mask f (x ∷ xs) [] = []
zip_mask f (x ∷ xs) (y ∷ ys) = f x y ∷ zip_mask f xs ys

-- What arrow documents: a comparison is of two values of one type, cell by cell, and masks are
-- connected cell by cell.
pub record IsArrow (arrow : Arrow) : Type 0 where
  pub signed :
      (op : CmpOp) (cells : Cells) (v : ℤ) (mask : Mask)
      → arrow.compare_values op (array cells) (scalar (i64_value v)) ≡ ok mask
      → (zs : List ℤ) × (cells ≡ map i64_value zs) × (mask ≡ map (λ z. holds_ℤ op z v) zs)
  pub unsigned :
      (op : CmpOp) (cells : Cells) (v : ℕ) (mask : Mask)
      → arrow.compare_values op (array cells) (scalar (u64_value v)) ≡ ok mask
      → (ns : List ℕ) × (cells ≡ map u64_value ns) × (mask ≡ map (λ n. holds_ℕ op n v) ns)
  pub conjunction :
      (l r mask : Mask) → arrow.connect_masks op_and l r ≡ ok mask → mask ≡ zip_mask ◌&&◌ l r
  pub disjunction :
      (l r mask : Mask) → arrow.connect_masks op_or l r ≡ ok mask → mask ≡ zip_mask ◌||◌ l r

-- `schema().index_of(name)?` and the column at that place.
unfoldable pub column_named : Name → Batch → Outcome Cells
column_named name [] = err arrow_error
column_named name ((n, cells) ∷ rest) = if bytes_eq n name then ok cells else column_named name rest
