-- ===== src/Execution/ZoneMap/Soundness.antt =====
-- A part that the zone map lets the scan skip has no row that passes the predicate.
use tiny_olap.Base.{
  ℕ, List, [], ◌∷◌, ◌≡◌, refl, Bool, true, false, ◌&&◌, ◌||◌, ◌⊎◌, inl, inr, leb, Option, none,
  some, All, ok, err, panic, stuck, ◌>>=◌, first_step,
}
use tiny_olap.Base.Words.{from_le_bytes}
use tiny_olap.Catalog.{Name}
use tiny_olap.Physical.Plan.{
  LiteralValue, i8_value, i16_value, i32_value, i64_value, u8_value, u16_value, u32_value,
  u64_value, f32_value, f64_value, str_value, bool_value, null_value, CmpOp, op_and, op_or,
  PhysicalExpr, column_ref, constant, compare_with, logical,
}
use tiny_olap.Execution.Batch.{
  Cells, Batch, Mask, Outcome, ColumnarValue, array, scalar, Arrow, IsArrow, column_named,
}
use tiny_olap.Execution.Predicate.{evaluate_operand, to_arrow_datum, evaluate_predicate}
use tiny_olap.Execution.ZoneMap.{
  ZoneEntry, ColumnZone, ZoneMap, get, cmp_can_skip_signed, cmp_can_skip_unsigned, i64_from,
  entry_can_skip, zone_can_skip, compare_can_skip, zone_map_can_skip,
}
use tiny_olap.Execution.ZoneMap.Masks.{
  CellWithin, AllFalse, signed_mask, unsigned_mask, zip_and, zip_or,
}

-- The first entry of every zone bounds the column of its name.
abbrev pub Covers : ZoneMap → Batch → Type 0
Covers zone_map batch =
    (name : Name) (zone : ColumnZone) (e : ZoneEntry) (rest : List ZoneEntry) (cells : Cells)
    → get name zone_map ≡ some zone
    → zone.entries ≡ e ∷ rest
    → column_named name batch ≡ ok cells
    → All (CellWithin e) cells

-- No literal of 64-bit floating point.
abbrev pub NoFloat : PhysicalExpr → Type 0
NoFloat (constant (f64_value v)) = ⊥
NoFloat (constant _) = Unit
NoFloat (column_ref name) = Unit
NoFloat (compare_with l op r) = NoFloat l × NoFloat r
NoFloat (logical l op r) = NoFloat l × NoFloat r

last_of : (a b c : Bool) → (a && (b && c)) ≡ true → c ≡ true
last_of true true c h = h
last_of true false c h = cc
last_of false b c h = cc

both_of : (a b : Bool) → (a && b) ≡ true → (a ≡ true) × (b ≡ true)
both_of true b h = (refl, h)
both_of false b h = cc

one_of : (a b : Bool) → (a || b) ≡ true → (a ≡ true) ⊎ (b ≡ true)
one_of true b h = inl refl
one_of false b h = inr h

-- A zone that lets the scan skip has an entry that does.
first_entry :
    (op : CmpOp) (tag : ℕ) (entries : List ZoneEntry) (v : LiteralValue)
    → (elim entries [ [] ↦ false | e ∷ _ ↦ entry_can_skip op tag e v ]) ≡ true
    → (e : ZoneEntry) × (rest : List ZoneEntry) × (entries ≡ e ∷ rest)
      × (entry_can_skip op tag e v ≡ true)
first_entry op tag [] v h = cc
first_entry op tag (e ∷ rest) v h = (e, rest, refl, h)

found_zone :
    (op : CmpOp) (found : Option ColumnZone) (v : LiteralValue)
    → (elim found [ none ↦ false | some zone ↦ zone_can_skip op zone v ]) ≡ true
    → (zone : ColumnZone) × (found ≡ some zone) × (zone_can_skip op zone v ≡ true)
found_zone op none v h = cc
found_zone op (some zone) v h = (zone, refl, h)

-- Both operands of a comparison were there.
scalar_datum :
    (f : ColumnarValue → Outcome Mask) (v : LiteralValue) (mask : Mask)
    → (to_arrow_datum (scalar v) >>= f) ≡ ok mask
    → f (scalar v) ≡ ok mask
unfolding to_arrow_datum
scalar_datum f (i8_value v) mask h = h
scalar_datum f (i16_value v) mask h = h
scalar_datum f (i32_value v) mask h = h
scalar_datum f (i64_value v) mask h = h
scalar_datum f (u8_value v) mask h = h
scalar_datum f (u16_value v) mask h = h
scalar_datum f (u32_value v) mask h = h
scalar_datum f (u64_value v) mask h = h
scalar_datum f (f32_value v) mask h = h
scalar_datum f (f64_value v) mask h = h
scalar_datum f (str_value v) mask h = h
scalar_datum f (bool_value v) mask h = h
scalar_datum f null_value mask h = cc

column_datum :
    (found : Outcome Cells) (f : ColumnarValue → Outcome Mask) (mask : Mask)
    → ((found >>= λ cells. ok (array cells)) >>= f) ≡ ok mask
    → (cells : Cells) × (found ≡ ok cells) × (f (array cells) ≡ ok mask)
column_datum (ok cells) f mask h = (cells, refl, h)
column_datum (err e) f mask h = cc
column_datum panic f mask h = cc
column_datum stuck f mask h = cc

module _ (arrow : Arrow) (laws : IsArrow arrow) where
  entry_mask :
      (op : CmpOp) (tag : ℕ) (e : ZoneEntry) (cells : Cells) (v : LiteralValue) (mask : Mask)
      → NoFloat (constant v)
      → entry_can_skip op tag e v ≡ true
      → All (CellWithin e) cells
      → arrow.compare_values op (array cells) (scalar v) ≡ ok mask
      → AllFalse mask
  unfolding entry_can_skip
  entry_mask op tag e cells (i64_value v) mask nf skip within h =
      let (zs, hc, hm) = laws.signed op cells v mask h in
      rw hm (
        signed_mask op e v zs
          (last_of (leb 1 tag) (leb tag 4)
            (cmp_can_skip_signed op (i64_from e.min_bytes) (i64_from e.max_bytes) v) skip)
          (rw (← hc) within))
  entry_mask op tag e cells (u64_value v) mask nf skip within h =
      let (ns, hc, hm) = laws.unsigned op cells v mask h in
      rw hm (
        unsigned_mask op e v ns
          (last_of (leb 5 tag) (leb tag 8)
            (cmp_can_skip_unsigned op (from_le_bytes e.min_bytes) (from_le_bytes e.max_bytes) v)
            skip)
          (rw (← hc) within))
  entry_mask op tag e cells (f64_value v) mask nf skip within h = absurd nf
  entry_mask op tag e cells (i8_value v) mask nf skip within h = cc
  entry_mask op tag e cells (i16_value v) mask nf skip within h = cc
  entry_mask op tag e cells (i32_value v) mask nf skip within h = cc
  entry_mask op tag e cells (u8_value v) mask nf skip within h = cc
  entry_mask op tag e cells (u16_value v) mask nf skip within h = cc
  entry_mask op tag e cells (u32_value v) mask nf skip within h = cc
  entry_mask op tag e cells (f32_value v) mask nf skip within h = cc
  entry_mask op tag e cells (str_value v) mask nf skip within h = cc
  entry_mask op tag e cells (bool_value v) mask nf skip within h = cc
  entry_mask op tag e cells null_value mask nf skip within h = cc

  compare_mask :
      (op : CmpOp) (name : Name) (v : LiteralValue) (zone_map : ZoneMap) (batch : Batch)
      (mask : Mask)
      → Covers zone_map batch
      → NoFloat (constant v)
      → compare_can_skip (column_ref name) op (constant v) zone_map ≡ true
      → evaluate_predicate arrow (compare_with (column_ref name) op (constant v)) batch ≡ ok mask
      → AllFalse mask
  unfolding compare_can_skip zone_can_skip evaluate_predicate evaluate_operand to_arrow_datum
  compare_mask op name v zone_map batch mask covers nf skip h =
      let (zone, in_map, skip1) = found_zone op (get name zone_map) v skip in
      let (e, rest, entries, skip2) = first_entry op zone.type_tag zone.entries v skip1 in
      let (cells, found, h1) =
        column_datum (column_named name batch)
          (λ l_cv. to_arrow_datum l_cv >>= λ l.
            to_arrow_datum (scalar v) >>= λ r. arrow.compare_values op l r)
          mask h in
      let h2 = scalar_datum (λ r. arrow.compare_values op (array cells) r) v mask h1 in
      entry_mask op zone.type_tag e cells v mask nf skip2
        (covers name zone e rest cells in_map entries found) h2

  -- When the zone map bounds the integer columns of a batch and lets the scan skip for a predicate
  -- without a double, no row of the batch passes the predicate.
  pub evaluate_predicate-AllFalse :
      (p : PhysicalExpr) (zone_map : ZoneMap) (batch : Batch) (mask : Mask)
      → Covers zone_map batch
      → NoFloat p
      → zone_map_can_skip p zone_map ≡ true
      → evaluate_predicate arrow p batch ≡ ok mask
      → AllFalse mask
  unfolding zone_map_can_skip evaluate_predicate compare_can_skip
  evaluate_predicate-AllFalse (compare_with (column_ref name) op (constant v)) zone_map batch mask
        covers (nl, nr) skip h =
      compare_mask op name v zone_map batch mask covers nr skip h
  evaluate_predicate-AllFalse (compare_with (column_ref name) op (column_ref n)) zone_map batch mask
        covers nf skip h =
      cc
  evaluate_predicate-AllFalse (compare_with (column_ref name) op (compare_with a o b)) zone_map
        batch mask covers nf skip h =
      cc
  evaluate_predicate-AllFalse (compare_with (column_ref name) op (logical a o b)) zone_map batch
        mask covers nf skip h =
      cc
  evaluate_predicate-AllFalse (compare_with (constant w) op r) zone_map batch mask covers nf skip
        h =
      cc
  evaluate_predicate-AllFalse (compare_with (compare_with a o b) op r) zone_map batch mask covers nf
        skip h =
      cc
  evaluate_predicate-AllFalse (compare_with (logical a o b) op r) zone_map batch mask covers nf skip
        h =
      cc
  evaluate_predicate-AllFalse (logical l op_and r) zone_map batch mask covers (nl, nr) skip h =
      let (ml, hl, h1) =
        first_step (evaluate_predicate arrow l batch)
          (λ x. evaluate_predicate arrow r batch >>= λ y. arrow.connect_masks op_and x y) mask h in
      let (mr, hr, h2) =
        first_step (evaluate_predicate arrow r batch) (λ y. arrow.connect_masks op_and ml y) mask
          h1 in
      rw (laws.conjunction ml mr mask h2) (
        zip_and ml mr
          (elim (one_of (zone_map_can_skip l zone_map) (zone_map_can_skip r zone_map) skip) [
            | inl s ↦ inl (evaluate_predicate-AllFalse l zone_map batch ml covers nl s hl)
            | inr s ↦ inr (evaluate_predicate-AllFalse r zone_map batch mr covers nr s hr)
          ]))
  evaluate_predicate-AllFalse (logical l op_or r) zone_map batch mask covers (nl, nr) skip h =
      let (ml, hl, h1) =
        first_step (evaluate_predicate arrow l batch)
          (λ x. evaluate_predicate arrow r batch >>= λ y. arrow.connect_masks op_or x y) mask h in
      let (mr, hr, h2) =
        first_step (evaluate_predicate arrow r batch) (λ y. arrow.connect_masks op_or ml y) mask
          h1 in
      let (sl, sr) = both_of (zone_map_can_skip l zone_map) (zone_map_can_skip r zone_map) skip in
      rw (laws.disjunction ml mr mask h2) (
        zip_or ml mr (evaluate_predicate-AllFalse l zone_map batch ml covers nl sl hl)
          (evaluate_predicate-AllFalse r zone_map batch mr covers nr sr hr))
  evaluate_predicate-AllFalse (column_ref name) zone_map batch mask covers nf skip h = cc
  evaluate_predicate-AllFalse (constant v) zone_map batch mask covers nf skip h = cc
