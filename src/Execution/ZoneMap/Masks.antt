-- ===== src/Execution/ZoneMap/Masks.antt =====
-- Masks of comparisons with a literal that the bounds exclude.
use tiny_olap.Base.{
  ℕ, ◌≤◌, List, [], ◌∷◌, map, ◌≡◌, refl, true, false, ◌&&◌, ◌||◌, ◌⊎◌, inl, inr, All, arith,
}
use tiny_olap.Base.Words.{from_le_bytes}
use tiny_olap.Base.Int.{ℤ, ◌≤ℤ◌}
use tiny_olap.Physical.Plan.{
  LiteralValue, i64_value, u64_value, CmpOp, cmp_eq, cmp_not_eq, cmp_lt, cmp_lt_eq, cmp_gt,
  cmp_gt_eq,
}
use tiny_olap.Execution.Batch.{Mask, holds_ℤ, holds_ℕ, zip_mask}
use tiny_olap.Execution.ZoneMap.{ZoneEntry, cmp_can_skip_signed, cmp_can_skip_unsigned, i64_from}

-- An integer of 64 bits lies between the bounds.
abbrev pub CellWithin : ZoneEntry → LiteralValue → Type 0
CellWithin e (i64_value z) = (i64_from e.min_bytes ≤ℤ z) × (z ≤ℤ i64_from e.max_bytes)
CellWithin e (u64_value n) = (from_le_bytes e.min_bytes ≤ n) × (n ≤ from_le_bytes e.max_bytes)
CellWithin e _ = Unit

abbrev pub AllFalse : Mask → Type 0
AllFalse mask = All (λ b. b ≡ false) mask

skip_signed :
    (op : CmpOp) (min max v z : ℤ)
    → cmp_can_skip_signed op min max v ≡ true
    → min ≤ℤ z
    → z ≤ℤ max
    → holds_ℤ op z v ≡ false
unfolding cmp_can_skip_signed
skip_signed cmp_eq min max v z h below above = ground arith
skip_signed cmp_not_eq min max v z h below above = ground arith
skip_signed cmp_lt min max v z h below above = ground arith
skip_signed cmp_lt_eq min max v z h below above = ground arith
skip_signed cmp_gt min max v z h below above = ground arith
skip_signed cmp_gt_eq min max v z h below above = ground arith

skip_unsigned :
    (op : CmpOp) (min max v n : ℕ)
    → cmp_can_skip_unsigned op min max v ≡ true
    → min ≤ n
    → n ≤ max
    → holds_ℕ op n v ≡ false
unfolding cmp_can_skip_unsigned
skip_unsigned cmp_eq min max v n h below above = ground arith
skip_unsigned cmp_not_eq min max v n h below above = ground arith
skip_unsigned cmp_lt min max v n h below above = ground arith
skip_unsigned cmp_lt_eq min max v n h below above = ground arith
skip_unsigned cmp_gt min max v n h below above = ground arith
skip_unsigned cmp_gt_eq min max v n h below above = ground arith

pub signed_mask :
    (op : CmpOp) (e : ZoneEntry) (v : ℤ) (zs : List ℤ)
    → cmp_can_skip_signed op (i64_from e.min_bytes) (i64_from e.max_bytes) v ≡ true
    → All (CellWithin e) (map i64_value zs)
    → AllFalse (map (λ z. holds_ℤ op z v) zs)
signed_mask op e v [] h within = tt
signed_mask op e v (z ∷ zs) h ((below, above), within) = (
  skip_signed op (i64_from e.min_bytes) (i64_from e.max_bytes) v z h below above,
  signed_mask op e v zs h within,
)

pub unsigned_mask :
    (op : CmpOp) (e : ZoneEntry) (v : ℕ) (ns : List ℕ)
    → cmp_can_skip_unsigned op (from_le_bytes e.min_bytes) (from_le_bytes e.max_bytes) v ≡ true
    → All (CellWithin e) (map u64_value ns)
    → AllFalse (map (λ n. holds_ℕ op n v) ns)
unsigned_mask op e v [] h within = tt
unsigned_mask op e v (n ∷ ns) h ((below, above), within) = (
  skip_unsigned op (from_le_bytes e.min_bytes) (from_le_bytes e.max_bytes) v n h below above,
  unsigned_mask op e v ns h within,
)

pub zip_and : (l r : Mask) → AllFalse l ⊎ AllFalse r → AllFalse (zip_mask ◌&&◌ l r)
zip_and [] r h = tt
zip_and (x ∷ l) [] h = tt
zip_and (x ∷ l) (y ∷ r) (inl (hx, h)) = (rw hx refl, zip_and l r (inl h))
zip_and (true ∷ l) (y ∷ r) (inr (hy, h)) = (hy, zip_and l r (inr h))
zip_and (false ∷ l) (y ∷ r) (inr (hy, h)) = (refl, zip_and l r (inr h))

pub zip_or : (l r : Mask) → AllFalse l → AllFalse r → AllFalse (zip_mask ◌||◌ l r)
zip_or [] r h k = tt
zip_or (x ∷ l) [] h k = tt
zip_or (x ∷ l) (y ∷ r) (hx, h) (hy, k) = (rw (hx, hy) refl, zip_or l r h k)
