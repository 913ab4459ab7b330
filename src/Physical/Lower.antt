-- ===== src/Physical/Lower.antt =====
-- tinyolap/src/physical_plan/lower.rs: the physical plan of a logical plan.
pub mod Columns
pub mod NoPanic
use tiny_olap.Base.{
  ℕ, zero, suc, ◌+◌, ◌*◌, ◌/◌, ◌%◌, List, [], ◌∷◌, ◌++◌, Bool, true, false, ◌&&◌, ltb, leb, ◌==◌,
  if◌then◌else◌, ok, panic, ◌>>=◌,
}
use tiny_olap.Base.Words.{word_mod}
use tiny_olap.Base.Int.{ℤ, pos, negsuc, pos_part, neg_part}
use tiny_olap.Catalog.{
  Name, DataType, i8, i16, i32, i64, u8, u16, u32, u64, f32, f64, bool_type, str_type,
}
use tiny_olap.Logical.Plan.{
  LiteralValue, int, float, str, boolean, null, BinaryOp, eq, not_eq, lt, lt_eq, gt, gt_eq, and, or,
  AggFunc, count, sum, avg, min, max, LogicalExpr, column, literal, binary_op, aggregate, cast,
  LogicalPlan, scan, filter, project, aggregate_by, limit,
}
use tiny_olap.Logical.Coercion.{Panics}
use tiny_olap.Physical.Plan as Plan
use tiny_olap.Physical.Plan.{
  i8_value, i16_value, i32_value, i64_value, u8_value, u16_value, u32_value, u64_value, f32_value,
  f64_value, str_value, bool_value, null_value, CmpOp, cmp_eq, cmp_not_eq, cmp_lt, cmp_lt_eq,
  cmp_gt, cmp_gt_eq, op_and, op_or, PhysicalExpr, column_ref, constant, compare_with, logical,
  AggSpec, PhysicalPlan, full_scan, filter_by, project_to, hash_aggregate, limit_to,
}

-- What the floats of the machine do: the conversions by `as`, and their decimal text.
pub record Floats : Type 0 where
  pub f32_of_i64 : ℤ → ℕ
  pub f64_of_i64 : ℤ → ℕ
  pub f32_of_f64 : ℕ → ℕ
  pub text : ℕ → Name

-- The order of strings is the order of their bytes.
unfoldable pub bytes_ltb : Name → Name → Bool
bytes_ltb [] [] = false
bytes_ltb [] (y ∷ ys) = true
bytes_ltb (x ∷ xs) [] = false
bytes_ltb (x ∷ xs) (y ∷ ys) = if ltb x y then true else if x == y then bytes_ltb xs ys else false

-- A `BTreeSet<String>` is its elements in their order.
unfoldable pub insert : Name → List Name → List Name
insert c [] = c ∷ []
insert c (d ∷ ds) =
    let rest = insert c ds in
    if bytes_ltb c d then c ∷ d ∷ ds else if bytes_ltb d c then d ∷ rest else d ∷ ds

unfoldable pub collect_expr_columns : LogicalExpr → List Name → List Name
collect_expr_columns (column t c) cols = insert c cols
collect_expr_columns (literal v) cols = cols
collect_expr_columns (binary_op l op r) cols = collect_expr_columns r (collect_expr_columns l cols)
collect_expr_columns (aggregate f arg) cols = collect_expr_columns arg cols
collect_expr_columns (cast e ty) cols = collect_expr_columns e cols

-- `for expr in exprs`.
unfoldable pub collect_list : List LogicalExpr → List Name → List Name
collect_list [] cols = cols
collect_list (e ∷ es) cols = collect_list es (collect_expr_columns e cols)

unfoldable pub collect_columns : LogicalPlan → List Name → List Name
collect_columns (scan t) cols = cols
collect_columns (filter p input) cols = collect_columns input (collect_expr_columns p cols)
collect_columns (project es input) cols = collect_columns input (collect_list es cols)
collect_columns (aggregate_by keys aggs input) cols =
    collect_columns input (collect_list (keys ++ aggs) cols)
collect_columns (limit n input) cols = collect_columns input cols

unfoldable pub agg_func_name : AggFunc → Name
agg_func_name count = 99 ∷ 111 ∷ 117 ∷ 110 ∷ 116 ∷ []
agg_func_name sum = 115 ∷ 117 ∷ 109 ∷ []
agg_func_name avg = 97 ∷ 118 ∷ 103 ∷ []
agg_func_name min = 109 ∷ 105 ∷ 110 ∷ []
agg_func_name max = 109 ∷ 97 ∷ 120 ∷ []

-- `{}({})`.
abbrev pub call_text : Name → Name → Name
call_text f arg = f ++ ((40 ∷ []) ++ (arg ++ (41 ∷ [])))

-- The digits of a number below 10 ^ 20, which every i64 is.
unfoldable pub digits : ℕ → ℕ → Name
digits zero n = []
digits (suc fuel) n =
    let higher = digits fuel (n / 10) in
    let digit = (48 + n % 10) ∷ [] in if ltb n 10 then digit else higher ++ digit

unfoldable pub int_text : ℤ → Name
int_text (pos n) = digits 20 n
int_text (negsuc n) = 45 ∷ digits 20 (suc n)

module _ (floats : Floats) where
  unfoldable pub literal_text : LiteralValue → Name
  literal_text (int n) = int_text n
  literal_text (float f) = floats.text f
  literal_text (str s) = s
  literal_text (boolean b) =
      if b then 116 ∷ 114 ∷ 117 ∷ 101 ∷ [] else 102 ∷ 97 ∷ 108 ∷ 115 ∷ 101 ∷ []
  literal_text null = 110 ∷ 117 ∷ 108 ∷ 108 ∷ []

  unfoldable pub expr_display : LogicalExpr → Name
  expr_display (column t c) = c
  expr_display (literal v) = literal_text v
  expr_display (binary_op l op r) = 60 ∷ 101 ∷ 120 ∷ 112 ∷ 114 ∷ 62 ∷ []
  expr_display (aggregate f arg) = call_text (agg_func_name f) (expr_display arg)
  expr_display (cast e ty) = expr_display e

  unfoldable pub lower_literal : LiteralValue → Plan.LiteralValue
  lower_literal (int n) = i64_value n
  lower_literal (float f) = f64_value f
  lower_literal (str s) = str_value s
  lower_literal (boolean b) = bool_value b
  lower_literal null = null_value

  -- `try_from(v).expect(…)` at a signed and at an unsigned type of `w` bytes.
  unfoldable pub narrow_signed : ℕ → ℤ → (ℤ → Plan.LiteralValue) → Panics Plan.LiteralValue
  narrow_signed w n make =
      if leb (2 * neg_part n) (word_mod w) && ltb (2 * pos_part n) (word_mod w)
      then ok (make n)
      else panic

  unfoldable pub narrow_unsigned : ℕ → ℤ → (ℕ → Plan.LiteralValue) → Panics Plan.LiteralValue
  narrow_unsigned w (pos n) make = if ltb n (word_mod w) then ok (make n) else panic
  narrow_unsigned w (negsuc n) make = panic

  unfoldable pub narrow_literal : LiteralValue → DataType → Panics Plan.LiteralValue
  narrow_literal (int n) i8 = narrow_signed 1 n i8_value
  narrow_literal (int n) i16 = narrow_signed 2 n i16_value
  narrow_literal (int n) i32 = narrow_signed 4 n i32_value
  narrow_literal (int n) i64 = ok (i64_value n)
  narrow_literal (int n) u8 = narrow_unsigned 1 n u8_value
  narrow_literal (int n) u16 = narrow_unsigned 2 n u16_value
  narrow_literal (int n) u32 = narrow_unsigned 4 n u32_value
  narrow_literal (int n) u64 = narrow_unsigned 8 n u64_value
  narrow_literal (int n) f32 = ok (f32_value (floats.f32_of_i64 n))
  narrow_literal (int n) f64 = ok (f64_value (floats.f64_of_i64 n))
  narrow_literal (float f) f32 = ok (f32_value (floats.f32_of_f64 f))
  narrow_literal (float f) f64 = ok (f64_value f)
  narrow_literal (str s) str_type = ok (str_value s)
  narrow_literal (boolean b) bool_type = ok (bool_value b)
  narrow_literal _ _ = panic

  unfoldable pub lower_binary : BinaryOp → PhysicalExpr → PhysicalExpr → PhysicalExpr
  lower_binary eq l r = compare_with l cmp_eq r
  lower_binary not_eq l r = compare_with l cmp_not_eq r
  lower_binary lt l r = compare_with l cmp_lt r
  lower_binary lt_eq l r = compare_with l cmp_lt_eq r
  lower_binary gt l r = compare_with l cmp_gt r
  lower_binary gt_eq l r = compare_with l cmp_gt_eq r
  lower_binary and l r = logical l op_and r
  lower_binary or l r = logical l op_or r

  unfoldable pub lower_cast : LogicalExpr → DataType → Panics PhysicalExpr
  lower_cast (literal v) ty = narrow_literal v ty >>= λ n. ok (constant n)
  lower_cast _ ty = panic

  unfoldable pub lower_expr : LogicalExpr → Panics PhysicalExpr
  lower_expr (column t c) = ok (column_ref c)
  lower_expr (literal v) = ok (constant (lower_literal v))
  lower_expr (binary_op l op r) = do
    left ← lower_expr l
    right ← lower_expr r
    ok (lower_binary op left right)
  lower_expr (aggregate f arg) = ok (column_ref (call_text (agg_func_name f) (expr_display arg)))
  lower_expr (cast e ty) = lower_cast e ty

  unfoldable pub lower_exprs : List LogicalExpr → Panics (List PhysicalExpr)
  lower_exprs [] = ok []
  lower_exprs (e ∷ es) = do x ← lower_expr e; xs ← lower_exprs es; ok (x ∷ xs)

  unfoldable pub lower_agg_spec : LogicalExpr → Panics AggSpec
  lower_agg_spec (aggregate f arg) = do
    x ← lower_expr arg
    ok (record { func = f; arg = x; output_name = call_text (agg_func_name f) (expr_display arg) })
  lower_agg_spec _ = panic

  unfoldable pub lower_agg_specs : List LogicalExpr → Panics (List AggSpec)
  lower_agg_specs [] = ok []
  lower_agg_specs (e ∷ es) = do x ← lower_agg_spec e; xs ← lower_agg_specs es; ok (x ∷ xs)

  unfoldable pub lower_plan : LogicalPlan → List Name → Panics PhysicalPlan
  lower_plan (scan t) cols = ok (full_scan t cols)
  lower_plan (filter p input) cols = do
    predicate ← lower_expr p
    child ← lower_plan input cols
    ok (filter_by predicate child)
  lower_plan (project es input) cols = do
    projections ← lower_exprs es
    child ← lower_plan input cols
    ok (project_to projections child)
  lower_plan (aggregate_by keys aggs input) cols = do
    group_by ← lower_exprs keys
    aggregates ← lower_agg_specs aggs
    child ← lower_plan input cols
    ok (hash_aggregate group_by aggregates child)
  lower_plan (limit n input) cols = do child ← lower_plan input cols; ok (limit_to n child)

  unfoldable pub lower : LogicalPlan → Panics PhysicalPlan
  lower plan = lower_plan plan (collect_columns plan [])
