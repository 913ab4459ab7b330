-- ===== src/Execution/ZoneMap.antt =====
-- tinyolap/src/execution/zone_map_scan.rs, `zone_map_can_skip`, over the zone map of
-- tinyolap/src/storage/zone_map.rs: whether the bounds of a part exclude every row.
pub mod Masks
pub mod Soundness
use tiny_olap.Base.{
  ℕ, zero, suc, ◌*◌, ◌%◌, ◌^◌, List, [], ◌∷◌, Bool, true, false, not, ◌&&◌, ◌||◌, ◌==◌, ltb, leb,
  Option, none, some, bytes_eq, if◌then◌else◌,
}
use tiny_olap.Base.Words.{from_le_bytes}
use tiny_olap.Base.Int.{ℤ, pos, negsuc, of_bits, ltb_ℤ, leb_ℤ, eqb_ℤ}
use tiny_olap.Catalog.{Name}
use tiny_olap.Physical.Plan.{
  LiteralValue, i64_value, u64_value, f64_value, CmpOp, cmp_eq, cmp_not_eq, cmp_lt, cmp_lt_eq,
  cmp_gt, cmp_gt_eq, LogicalOp, op_and, op_or, PhysicalExpr, column_ref, constant, compare_with,
  logical,
}

-- Eight bytes each.
pub record ZoneEntry : Type 0 where
  pub min_bytes : List ℕ
  pub max_bytes : List ℕ

pub record ColumnZone : Type 0 where
  pub type_tag : ℕ
  pub entries : List ZoneEntry

-- A `HashMap<String, ColumnZone>` by its entries, the latest insertion first.
abbrev pub ZoneMap : Type 0
ZoneMap = List (Name × ColumnZone)

unfoldable pub get : Name → ZoneMap → Option ColumnZone
get name [] = none
get name ((n, zone) ∷ rest) = if bytes_eq n name then some zone else get name rest

unfoldable pub cmp_can_skip_signed : CmpOp → ℤ → ℤ → ℤ → Bool
cmp_can_skip_signed cmp_gt min max v = leb_ℤ max v
cmp_can_skip_signed cmp_gt_eq min max v = ltb_ℤ max v
cmp_can_skip_signed cmp_lt min max v = leb_ℤ v min
cmp_can_skip_signed cmp_lt_eq min max v = ltb_ℤ v min
cmp_can_skip_signed cmp_eq min max v = ltb_ℤ v min || ltb_ℤ max v
cmp_can_skip_signed cmp_not_eq min max v = eqb_ℤ min max && eqb_ℤ min v

unfoldable pub cmp_can_skip_unsigned : CmpOp → ℕ → ℕ → ℕ → Bool
cmp_can_skip_unsigned cmp_gt min max v = leb max v
cmp_can_skip_unsigned cmp_gt_eq min max v = ltb max v
cmp_can_skip_unsigned cmp_lt min max v = leb v min
cmp_can_skip_unsigned cmp_lt_eq min max v = ltb v min
cmp_can_skip_unsigned cmp_eq min max v = ltb v min || ltb max v
cmp_can_skip_unsigned cmp_not_eq min max v = min == max && min == v

-- The comparison of doubles given by their bits: infinities are ordered, a NaN compares as false.
abbrev pub is_nan : ℕ → Bool
is_nan b = ltb (2047 * 2 ^ 52) (b % 2 ^ 63)

abbrev negate : ℕ → ℤ
negate zero = pos zero
negate (suc n) = negsuc n

-- Sign and magnitude as an integer; both zeros are 0.
abbrev pub float_key : ℕ → ℤ
float_key b = if ltb b (2 ^ 63) then pos b else negate (b % 2 ^ 63)

unfoldable pub float_lt : ℕ → ℕ → Bool
float_lt a b = not (is_nan a) && (not (is_nan b) && ltb_ℤ (float_key a) (float_key b))

unfoldable pub float_le : ℕ → ℕ → Bool
float_le a b = not (is_nan a) && (not (is_nan b) && leb_ℤ (float_key a) (float_key b))

unfoldable pub float_eq : ℕ → ℕ → Bool
float_eq a b = not (is_nan a) && (not (is_nan b) && eqb_ℤ (float_key a) (float_key b))

unfoldable pub cmp_can_skip_float : CmpOp → ℕ → ℕ → ℕ → Bool
cmp_can_skip_float cmp_gt min max v = float_le max v
cmp_can_skip_float cmp_gt_eq min max v = float_lt max v
cmp_can_skip_float cmp_lt min max v = float_le v min
cmp_can_skip_float cmp_lt_eq min max v = float_lt v min
cmp_can_skip_float cmp_eq min max v = float_lt v min || float_lt max v
cmp_can_skip_float cmp_not_eq min max v = float_eq min max && float_eq min v

unfoldable pub i64_from : List ℕ → ℤ
i64_from bytes = of_bits 8 (from_le_bytes bytes)

-- The match on the tag and the literal.
unfoldable pub entry_can_skip : CmpOp → ℕ → ZoneEntry → LiteralValue → Bool
entry_can_skip op tag e (i64_value v) =
    leb 1 tag
    && (leb tag 4 && cmp_can_skip_signed op (i64_from e.min_bytes) (i64_from e.max_bytes) v)
entry_can_skip op tag e (u64_value v) =
    leb 5 tag
    && (leb tag 8
        && cmp_can_skip_unsigned op (from_le_bytes e.min_bytes) (from_le_bytes e.max_bytes) v)
entry_can_skip op tag e (f64_value v) =
    leb 9 tag
    && (leb tag 10
        && cmp_can_skip_float op (from_le_bytes e.min_bytes) (from_le_bytes e.max_bytes) v)
entry_can_skip op tag e _ = false

unfoldable pub zone_can_skip : CmpOp → ColumnZone → LiteralValue → Bool
zone_can_skip op zone v = elim zone.entries [
  | [] ↦ false
  | e ∷ _ ↦ entry_can_skip op zone.type_tag e v
]

unfoldable pub compare_can_skip : PhysicalExpr → CmpOp → PhysicalExpr → ZoneMap → Bool
compare_can_skip (column_ref name) op (constant v) zone_map = elim (get name zone_map) [
  | none ↦ false
  | some zone ↦ zone_can_skip op zone v
]
compare_can_skip left op right zone_map = false

unfoldable pub zone_map_can_skip : PhysicalExpr → ZoneMap → Bool
zone_map_can_skip (compare_with left op right) zone_map = compare_can_skip left op right zone_map
zone_map_can_skip (logical left op_and right) zone_map =
    zone_map_can_skip left zone_map || zone_map_can_skip right zone_map
zone_map_can_skip (logical left op_or right) zone_map =
    zone_map_can_skip left zone_map && zone_map_can_skip right zone_map
zone_map_can_skip (column_ref name) zone_map = false
zone_map_can_skip (constant v) zone_map = false
