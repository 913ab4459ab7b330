-- ===== src/Physical/Lower/NoPanic.antt =====
-- Lowering does not panic when the casts stand over literals that fit their types.
use tiny_olap.Base.{ℕ, List, [], ◌∷◌, Bool, ◌<◌, ◌≡◌, refl, All, ok, arith}
use tiny_olap.Base.Words.{word_mod}
use tiny_olap.Base.Int.{ℤ, pos, IsSigned}
use tiny_olap.Catalog.{
  Name, DataType, i8, i16, i32, i64, u8, u16, u32, u64, f32, f64, bool_type, str_type,
}
use tiny_olap.Logical.Plan.{
  LiteralValue, int, float, str, boolean, LogicalExpr, column, literal, binary_op, aggregate, cast,
  LogicalPlan, scan, filter, project, aggregate_by, limit,
}
use tiny_olap.Physical.Plan as Plan
use tiny_olap.Physical.Plan.{
  i8_value, i16_value, i32_value, i64_value, u8_value, u16_value, u32_value, u64_value, f32_value,
  f64_value, str_value, bool_value, PhysicalExpr, column_ref, constant, AggSpec, PhysicalPlan,
  full_scan, filter_by, project_to, hash_aggregate, limit_to,
}
use tiny_olap.Physical.Lower.{
  Floats, agg_func_name, call_text, expr_display, lower_literal, narrow_signed, narrow_unsigned,
  narrow_literal, lower_binary, lower_cast, lower_expr, lower_exprs, lower_agg_spec,
  lower_agg_specs, collect_columns, lower_plan, lower,
}

-- A literal that a column of the type can be compared with: of the kind of the type, and an integer
-- within the range of an integer type.
pub data CanNarrow : LiteralValue → DataType → Type 0 where
  int_i8 : {n : ℤ} → IsSigned 1 n → CanNarrow (int n) i8
  int_i16 : {n : ℤ} → IsSigned 2 n → CanNarrow (int n) i16
  int_i32 : {n : ℤ} → IsSigned 4 n → CanNarrow (int n) i32
  int_i64 : {n : ℤ} → CanNarrow (int n) i64
  int_u8 : {n : ℕ} → n < word_mod 1 → CanNarrow (int (pos n)) u8
  int_u16 : {n : ℕ} → n < word_mod 2 → CanNarrow (int (pos n)) u16
  int_u32 : {n : ℕ} → n < word_mod 4 → CanNarrow (int (pos n)) u32
  int_u64 : {n : ℕ} → n < word_mod 8 → CanNarrow (int (pos n)) u64
  int_f32 : {n : ℤ} → CanNarrow (int n) f32
  int_f64 : {n : ℤ} → CanNarrow (int n) f64
  float_f32 : {b : ℕ} → CanNarrow (float b) f32
  float_f64 : {b : ℕ} → CanNarrow (float b) f64
  str_str : {s : Name} → CanNarrow (str s) str_type
  bool_bool : {b : Bool} → CanNarrow (boolean b) bool_type

-- Every cast stands over a literal that fits.
abbrev pub Fits : LogicalExpr → Type 0
Fits (column t c) = Unit
Fits (literal v) = Unit
Fits (binary_op l op r) = Fits l × Fits r
Fits (aggregate f arg) = Unit
Fits (cast (literal v) ty) = CanNarrow v ty
Fits (cast (column t c) ty) = ⊥
Fits (cast (binary_op l op r) ty) = ⊥
Fits (cast (aggregate f arg) ty) = ⊥
Fits (cast (cast e ty') ty) = ⊥

-- An aggregate function over an argument that fits.
abbrev pub FitsAggregate : LogicalExpr → Type 0
FitsAggregate (aggregate f arg) = Fits arg
FitsAggregate (column t c) = ⊥
FitsAggregate (literal v) = ⊥
FitsAggregate (binary_op l op r) = ⊥
FitsAggregate (cast e ty) = ⊥

abbrev pub FitsPlan : LogicalPlan → Type 0
FitsPlan (scan t) = Unit
FitsPlan (filter p input) = Fits p × FitsPlan input
FitsPlan (project es input) = All Fits es × FitsPlan input
FitsPlan (aggregate_by keys aggs input) = All Fits keys × (All FitsAggregate aggs × FitsPlan input)
FitsPlan (limit n input) = FitsPlan input

module _ (floats : Floats) where
  narrow_literal-CanNarrow :
      {v : LiteralValue} {ty : DataType}
      → CanNarrow v ty
      → (x : Plan.LiteralValue) × (narrow_literal floats v ty ≡ ok x)
  unfolding narrow_literal narrow_signed narrow_unsigned
  narrow_literal-CanNarrow (int_i8 {n} h) = (i8_value n, ground (arith, h.above, h.below))
  narrow_literal-CanNarrow (int_i16 {n} h) = (i16_value n, ground (arith, h.above, h.below))
  narrow_literal-CanNarrow (int_i32 {n} h) = (i32_value n, ground (arith, h.above, h.below))
  narrow_literal-CanNarrow (int_i64 {n}) = (i64_value n, refl)
  narrow_literal-CanNarrow (int_u8 {n} h) = (u8_value n, ground arith)
  narrow_literal-CanNarrow (int_u16 {n} h) = (u16_value n, ground arith)
  narrow_literal-CanNarrow (int_u32 {n} h) = (u32_value n, ground arith)
  narrow_literal-CanNarrow (int_u64 {n} h) = (u64_value n, ground arith)
  narrow_literal-CanNarrow (int_f32 {n}) = (f32_value (floats.f32_of_i64 n), refl)
  narrow_literal-CanNarrow (int_f64 {n}) = (f64_value (floats.f64_of_i64 n), refl)
  narrow_literal-CanNarrow (float_f32 {b}) = (f32_value (floats.f32_of_f64 b), refl)
  narrow_literal-CanNarrow (float_f64 {b}) = (f64_value b, refl)
  narrow_literal-CanNarrow (str_str {s}) = (str_value s, refl)
  narrow_literal-CanNarrow (bool_bool {b}) = (bool_value b, refl)

  lower_expr-Fits :
      (e : LogicalExpr) → Fits e → (out : PhysicalExpr) × (lower_expr floats e ≡ ok out)
  unfolding lower_expr lower_cast
  lower_expr-Fits (column t c) h = (column_ref c, refl)
  lower_expr-Fits (literal v) h = (constant (lower_literal floats v), refl)
  lower_expr-Fits (binary_op l op r) (hl, hr) =
      let (left, el) = lower_expr-Fits l hl in
      let (right, er) = lower_expr-Fits r hr in
      (lower_binary floats op left right, rw (el, er) refl)
  lower_expr-Fits (aggregate f arg) h =
      (column_ref (call_text (agg_func_name f) (expr_display floats arg)), refl)
  lower_expr-Fits (cast (literal v) ty) h =
      let (x, e) = narrow_literal-CanNarrow h in (constant x, rw e refl)
  lower_expr-Fits (cast (column t c) ty) h = absurd h
  lower_expr-Fits (cast (binary_op l op r) ty) h = absurd h
  lower_expr-Fits (cast (aggregate f arg) ty) h = absurd h
  lower_expr-Fits (cast (cast e ty') ty) h = absurd h

  lower_exprs-Fits :
      (es : List LogicalExpr)
      → All Fits es
      → (out : List PhysicalExpr) × (lower_exprs floats es ≡ ok out)
  unfolding lower_exprs
  lower_exprs-Fits [] h = ([], refl)
  lower_exprs-Fits (e ∷ es) (he, h) =
      let (x, ex) = lower_expr-Fits e he in
      let (xs, exs) = lower_exprs-Fits es h in (x ∷ xs, rw (ex, exs) refl)

  lower_agg_spec-Fits :
      (e : LogicalExpr) → FitsAggregate e → (out : AggSpec) × (lower_agg_spec floats e ≡ ok out)
  unfolding lower_agg_spec
  lower_agg_spec-Fits (aggregate f arg) h =
      let (x, e) = lower_expr-Fits arg h in
      (
        record {
          func = f;
          arg = x;
          output_name = call_text (agg_func_name f) (expr_display floats arg);
        },
        rw e refl,
      )
  lower_agg_spec-Fits (column t c) h = absurd h
  lower_agg_spec-Fits (literal v) h = absurd h
  lower_agg_spec-Fits (binary_op l op r) h = absurd h
  lower_agg_spec-Fits (cast e ty) h = absurd h

  lower_agg_specs-Fits :
      (es : List LogicalExpr)
      → All FitsAggregate es
      → (out : List AggSpec) × (lower_agg_specs floats es ≡ ok out)
  unfolding lower_agg_specs
  lower_agg_specs-Fits [] h = ([], refl)
  lower_agg_specs-Fits (e ∷ es) (he, h) =
      let (x, ex) = lower_agg_spec-Fits e he in
      let (xs, exs) = lower_agg_specs-Fits es h in (x ∷ xs, rw (ex, exs) refl)

  lower_plan-FitsPlan :
      (plan : LogicalPlan) (cols : List Name)
      → FitsPlan plan
      → (out : PhysicalPlan) × (lower_plan floats plan cols ≡ ok out)
  unfolding lower_plan
  lower_plan-FitsPlan (scan t) cols h = (full_scan t cols, refl)
  lower_plan-FitsPlan (filter p input) cols (hp, h) =
      let (x, ex) = lower_expr-Fits p hp in
      let (child, ec) = lower_plan-FitsPlan input cols h in (filter_by x child, rw (ex, ec) refl)
  lower_plan-FitsPlan (project es input) cols (hes, h) =
      let (xs, exs) = lower_exprs-Fits es hes in
      let (child, ec) = lower_plan-FitsPlan input cols h in (project_to xs child, rw (exs, ec) refl)
  lower_plan-FitsPlan (aggregate_by keys aggs input) cols (hkeys, (haggs, h)) =
      let (xs, exs) = lower_exprs-Fits keys hkeys in
      let (ys, eys) = lower_agg_specs-Fits aggs haggs in
      let (child, ec) = lower_plan-FitsPlan input cols h in
      (hash_aggregate xs ys child, rw (exs, eys, ec) refl)
  lower_plan-FitsPlan (limit n input) cols h =
      let (child, ec) = lower_plan-FitsPlan input cols h in (limit_to n child, rw ec refl)

  -- A plan whose casts stand over literals that fit their types, and whose aggregates are aggregate
  -- functions, is lowered without a panic.
  pub lower-FitsPlan :
      (plan : LogicalPlan) → FitsPlan plan → (out : PhysicalPlan) × (lower floats plan ≡ ok out)
  unfolding lower
  lower-FitsPlan plan h = lower_plan-FitsPlan plan (collect_columns plan []) h
