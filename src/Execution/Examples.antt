-- ===== src/Execution/Examples.antt =====
-- Concrete runs of the operators, and their theorems at concrete inputs.
use tiny_olap.Base.{
  List, [], ◌∷◌, map, ◌≡◌, refl, ap, Bool, true, false, ◌&&◌, ◌||◌, if◌then◌else◌, Option, none,
  some, All, bytes_eq, ok, err, arith,
}
use tiny_olap.Base.Words.{from_le_bytes}
use tiny_olap.Base.Int.{ℤ, pos, of_bits}
use tiny_olap.Catalog.{Name}
use tiny_olap.Physical.Plan.{
  i8_value, i16_value, i32_value, i64_value, u8_value, u16_value, u32_value, u64_value, f32_value,
  f64_value, str_value, bool_value, null_value, CmpOp, cmp_gt, LogicalOp, op_and, op_or,
  PhysicalExpr, column_ref, constant, compare_with,
}
use tiny_olap.Execution.Batch.{
  arrow_error, Cells, Batch, Mask, Outcome, ColumnarValue, array, scalar, Arrow, IsArrow, holds_ℤ,
  zip_mask, column_named,
}
use tiny_olap.Execution.Predicate.{evaluate_operand, to_arrow_datum, evaluate_predicate}
use tiny_olap.Execution.ZoneMap.{
  ZoneEntry, ColumnZone, ZoneMap, get, zone_map_can_skip, compare_can_skip, zone_can_skip,
  entry_can_skip, cmp_can_skip_signed, i64_from,
}
use tiny_olap.Execution.ZoneMap.Masks.{CellWithin, AllFalse}
use tiny_olap.Execution.ZoneMap.Masks.{CellWithin, AllFalse}
use tiny_olap.Execution.ZoneMap.Soundness.{Covers, evaluate_predicate-AllFalse}
use tiny_olap.Catalog.{ColumnSchema, i64}
use tiny_olap.Base.{ℕ, ◌==◌, take, drop}
use tiny_olap.Execution.Limit as Limit
use tiny_olap.Execution.Limit.{Batches}
use tiny_olap.Execution.Limit.Rows.{drain, drain-new}
use tiny_olap.Execution.WorkSource as WorkSource
use tiny_olap.Execution.WorkSource.Once.{run, handed_out, handed_out-run}
use tiny_olap.Execution.Scan as Scan
use tiny_olap.Execution.Scan.{
  Storage, Scan, read_arrays, finish_batch, read_batch, open_readers, start_part, take_part,
  full_next_batch, can_skip, skip_parts, zone_map_next_batch,
}
use tiny_olap.Execution.Scan.Skipping.{only_remaining, trimmed, trimmed-zone_map_next_batch}

cons_int : ℤ → Option (List ℤ) → Option (List ℤ)
cons_int z none = none
cons_int z (some zs) = some (z ∷ zs)

-- The integers of a column that has no other cells.
as_ints : Cells → Option (List ℤ)
as_ints [] = some []
as_ints (i64_value z ∷ cells) = cons_int z (as_ints cells)
as_ints (_ ∷ cells) = none

compare_ints : CmpOp → Option (List ℤ) → ℤ → Outcome Mask
compare_ints op none v = err arrow_error
compare_ints op (some zs) v = ok (map (λ z. holds_ℤ op z v) zs)

compare_cells : CmpOp → ColumnarValue → ColumnarValue → Outcome Mask
compare_cells op (array cells) (scalar (i64_value v)) = compare_ints op (as_ints cells) v
compare_cells op l r = err arrow_error

connect : LogicalOp → Mask → Mask → Outcome Mask
connect op_and l r = ok (zip_mask ◌&&◌ l r)
connect op_or l r = ok (zip_mask ◌||◌ l r)

-- Kernels over integers of 64 bits alone.
abbrev int_kernels : Arrow
int_kernels = record { compare_values = compare_cells; connect_masks = connect }

cons_int_cases :
    (z : ℤ) (found : Option (List ℤ)) (zs : List ℤ)
    → cons_int z found ≡ some zs
    → (rest : List ℤ) × (found ≡ some rest) × (zs ≡ z ∷ rest)
unfolding cons_int
cons_int_cases z none zs h = cc
cons_int_cases z (some rest) zs h = (rest, refl, cc)

as_ints_lem : (cells : Cells) (zs : List ℤ) → as_ints cells ≡ some zs → cells ≡ map i64_value zs
unfolding as_ints
as_ints_lem [] [] h = refl
as_ints_lem [] (z ∷ zs) h = cc
as_ints_lem (i64_value z ∷ cells) zs h =
    let (rest, found, split) = cons_int_cases z (as_ints cells) zs h in
    cc (split, as_ints_lem cells rest found)
as_ints_lem (i8_value z ∷ cells) zs h = cc
as_ints_lem (i16_value z ∷ cells) zs h = cc
as_ints_lem (i32_value z ∷ cells) zs h = cc
as_ints_lem (u8_value z ∷ cells) zs h = cc
as_ints_lem (u16_value z ∷ cells) zs h = cc
as_ints_lem (u32_value z ∷ cells) zs h = cc
as_ints_lem (u64_value z ∷ cells) zs h = cc
as_ints_lem (f32_value z ∷ cells) zs h = cc
as_ints_lem (f64_value z ∷ cells) zs h = cc
as_ints_lem (str_value z ∷ cells) zs h = cc
as_ints_lem (bool_value z ∷ cells) zs h = cc
as_ints_lem (null_value ∷ cells) zs h = cc

compare_signed :
    (op : CmpOp) (cells : Cells) (found : Option (List ℤ)) (v : ℤ) (mask : Mask)
    → as_ints cells ≡ found
    → compare_ints op found v ≡ ok mask
    → (zs : List ℤ) × (cells ≡ map i64_value zs) × (mask ≡ map (λ z. holds_ℤ op z v) zs)
unfolding compare_ints
compare_signed op cells none v mask e h = cc
compare_signed op cells (some zs) v mask e h = (zs, as_ints_lem cells zs e, cc)

int_kernels-IsArrow : IsArrow int_kernels
unfolding compare_cells connect
int_kernels-IsArrow = record {
  signed = λ op cells v mask h. compare_signed op cells (as_ints cells) v mask refl h;
  unsigned = λ op cells v mask h. cc;
  conjunction = λ l r mask h. cc;
  disjunction = λ l r mask h. cc;
}

abbrev x : Name
x = 120 ∷ []

-- Between 3 and 5.
abbrev bounds : ZoneEntry
bounds = record {
  min_bytes = 3 ∷ 0 ∷ 0 ∷ 0 ∷ 0 ∷ 0 ∷ 0 ∷ 0 ∷ [];
  max_bytes = 5 ∷ 0 ∷ 0 ∷ 0 ∷ 0 ∷ 0 ∷ 0 ∷ 0 ∷ [];
}

abbrev zone : ColumnZone
zone = record { type_tag = 4; entries = bounds ∷ [] }

abbrev zone_map : ZoneMap
zone_map = (x, zone) ∷ []

abbrev batch : Batch
batch = (x, i64_value (pos 3) ∷ i64_value (pos 5) ∷ []) ∷ []

-- `x > 7`.
abbrev predicate : PhysicalExpr
predicate = compare_with (column_ref x) cmp_gt (constant (i64_value (pos 7)))

skipped : zone_map_can_skip predicate zone_map ≡ true
unfolding zone_map_can_skip compare_can_skip zone_can_skip entry_can_skip cmp_can_skip_signed get
    bytes_eq i64_from from_le_bytes of_bits
skipped = refl

evaluated : evaluate_predicate int_kernels predicate batch ≡ ok (false ∷ false ∷ [])
unfolding evaluate_predicate evaluate_operand to_arrow_datum column_named bytes_eq compare_cells
    as_ints cons_int compare_ints
evaluated = refl

bounded : All (CellWithin bounds) (i64_value (pos 3) ∷ i64_value (pos 5) ∷ [])
unfolding i64_from from_le_bytes of_bits
bounded = ((omega arith, omega arith), ((omega arith, omega arith), tt))

-- The look-ups of one name, which `b` says is "x".
covers_at :
    (b : Bool) (z : ColumnZone) (e : ZoneEntry) (rest : List ZoneEntry) (cells : Cells)
    → (if b then some zone else none) ≡ some z
    → z.entries ≡ e ∷ rest
    → (if b then ok (i64_value (pos 3) ∷ i64_value (pos 5) ∷ []) else err arrow_error) ≡ ok cells
    → All (CellWithin e) cells
covers_at true z e rest cells hz he hc =
    let pz : zone ≡ z = cc in
    let pz' : bounds ∷ [] ≡ z.entries = ap (λ q. q.entries) pz in
    let pe : bounds ≡ e = cc in
    let pc : i64_value (pos 3) ∷ i64_value (pos 5) ∷ [] ≡ cells = cc in rw (← pe, ← pc) bounded
covers_at false z e rest cells hz he hc = cc

batch-Covers : Covers zone_map batch
unfolding get column_named
batch-Covers name z e rest cells in_map entries found =
    covers_at (bytes_eq x name) z e rest cells in_map entries found

evaluate_predicate-AllFalse_example : AllFalse (false ∷ false ∷ [])
evaluate_predicate-AllFalse_example =
    evaluate_predicate-AllFalse int_kernels int_kernels-IsArrow predicate zone_map batch
      (false ∷ false ∷ []) batch-Covers (tt, tt) skipped evaluated

-- A batch is its rows, here numbers.
abbrev rows_themselves : Batches (List ℕ) ℕ
rows_themselves = record { rows = λ b. b; slice = λ b offset n. take n (drop offset b) }

-- Two and two rows, at most three.
drain-new_example :
    drain rows_themselves 3 (Limit.new 3 (ok (1 ∷ 2 ∷ []) ∷ ok (3 ∷ 4 ∷ []) ∷ []))
    ≡ ok (1 ∷ 2 ∷ 3 ∷ [])
drain-new_example =
    drain-new rows_themselves (record { rows-slice = λ b offset n. refl }) 3
      ((1 ∷ 2 ∷ []) ∷ (3 ∷ 4 ∷ []) ∷ [])

abbrev part_list : List ℕ
part_list = 5 ∷ 6 ∷ 7 ∷ []

-- Workers 1, 2, 1 and 1 take three parts.
handed_out-run_example :
    handed_out (run (1 ∷ 2 ∷ 1 ∷ 1 ∷ []) (WorkSource.new part_list)) ≡ part_list
handed_out-run_example = handed_out-run (1 ∷ 2 ∷ 1 ∷ 1 ∷ []) part_list (omega arith)

-- Parts by numbers: part 0 has the zone map, and every granule reads as the batch.
part_zone_map : ℕ → Option ZoneMap
part_zone_map n = if n == 0 then some zone_map else none

abbrev parts : Storage ℕ ℕ
parts = record {
  open_column = λ part col. ok part;
  granule_count = λ r. 1;
  read_granule = λ r ty idx. (ok (i64_value (pos 3) ∷ []), r);
  read_zone_map = part_zone_map;
  try_new = λ b. ok b;
}

abbrev x_column : List ColumnSchema
x_column = record { name = x; data_type = i64 } ∷ []

abbrev three_parts : Scan ℕ ℕ
three_parts = Scan.new (0 ∷ 1 ∷ 0 ∷ [])

trimmed-zone_map_next_batch_example :
    trimmed parts x_column predicate (zone_map_next_batch parts x_column predicate three_parts)
    ≡ full_next_batch parts x_column (only_remaining parts x_column predicate three_parts)
trimmed-zone_map_next_batch_example =
    trimmed-zone_map_next_batch parts x_column predicate three_parts

-- The first part is skipped.
skips_one :
    (zone_map_next_batch parts x_column predicate three_parts).0
    ≡ some (ok ((x, i64_value (pos 3) ∷ []) ∷ []))
unfolding zone_map_next_batch skip_parts can_skip part_zone_map take_part start_part read_batch
    read_arrays finish_batch open_readers Scan.new zone_map_can_skip compare_can_skip zone_can_skip
    entry_can_skip cmp_can_skip_signed get bytes_eq i64_from from_le_bytes of_bits
skips_one = refl
