-- ===== src/Storage/ColumnWriter/Bounds.antt =====
-- The bounds of a written column hold for each of its values.
use tiny_olap.Base.{
  ℕ, ◌*◌, List, [], ◌∷◌, ◌≡◌, refl, inl, inr, Bool, true, false, leb, ◌==◌, Option, none, some,
  length, is_empty, All, Bool-cases, ok,
}
use tiny_olap.Encoding.Primitive.{Primitive, IsLawful}
use tiny_olap.Encoding.Delta.RoundTrip.{Width, stride_of}
use tiny_olap.Encoding.Codec.{Codec}
use tiny_olap.Storage.ColumnWriter.Bytes.{encodes}
use tiny_olap.Storage.ColumnWriter.{
  granule_size, block_buffer_size, Writer, start, write_block, flush_block, lower_bound,
  upper_bound, push_row, close_granule, end_of_row, write_rows, write_column,
}

-- A total order, up to values that neither is below the other.
pub record IsOrder {T : Type 0} (lt : T → T → Bool) : Type 0 where
  pub irreflexive : (a : T) → lt a a ≡ false
  pub asymmetric : (a b : T) → lt a b ≡ true → lt b a ≡ false
  pub not_below : (a b c : T) → lt a b ≡ false → lt b c ≡ false → lt a c ≡ false

-- The value is not below the minimum, nor above the maximum.
abbrev pub InBounds : {T : Type 0} → (T → T → Bool) → Option T → Option T → T → Type 0
InBounds lt (some min) (some max) v = (lt v min ≡ false) × (lt max v ≡ false)
InBounds lt none max v = ⊥
InBounds lt (some min) none v = ⊥

module _ {T : Type 0} (prim : Primitive T) (lt : T → T → Bool) (compress : List ℕ → List ℕ)
    (order : IsOrder lt) where
  widened :
      (min max : Option T) (v u : T)
      → InBounds lt min max u
      → InBounds lt
          (some (lower_bound prim lt compress min v))
          (some (upper_bound prim lt compress max v))
          u
  unfolding lower_bound upper_bound
  widened none max v u h = absurd h
  widened (some a) none v u h = absurd h
  widened (some a) (some b) v u (above, below) = (
    elim (Bool-cases (lt v a)) [
      | inl e ↦ rw e (order.not_below u a v above (order.asymmetric v a e))
      | inr e ↦ rw e above
    ],
    elim (Bool-cases (lt b v)) [
      | inl e ↦ rw e (order.not_below v b u (order.asymmetric b v e) below)
      | inr e ↦ rw e below
    ],
  )

  own_value :
      (min max : Option T) (v : T)
      → InBounds lt
          (some (lower_bound prim lt compress min v))
          (some (upper_bound prim lt compress max v))
          v
  unfolding lower_bound upper_bound
  own_value min max v = (below_min min, above_max max)
    where
      below_min : (min : Option T) → lt v (lower_bound prim lt compress min v) ≡ false
      below_min none = order.irreflexive v
      below_min (some a) = elim (Bool-cases (lt v a)) [
        | inl e ↦ rw e (order.irreflexive v)
        | inr e ↦ rw e e
      ]

      above_max : (max : Option T) → lt (upper_bound prim lt compress max v) v ≡ false
      above_max none = order.irreflexive v
      above_max (some b) = elim (Bool-cases (lt b v)) [
        | inl e ↦ rw e (order.irreflexive v)
        | inr e ↦ rw e e
      ]

  abbrev Bounded : Writer T → List T → Type 0
  Bounded s seen = All (InBounds lt s.min_val s.max_val) seen

  push_row-Bounded :
      (v : T) (s : Writer T) (seen : List T)
      → Bounded s seen
      → Bounded (push_row prim lt compress v s) (v ∷ seen)
  unfolding push_row
  push_row-Bounded v s seen h = (own_value s.min_val s.max_val v, all_widened seen h)
    where
      all_widened :
          (seen : List T)
          → Bounded s seen
          → All
              (InBounds lt
                (some (lower_bound prim lt compress s.min_val v))
                (some (upper_bound prim lt compress s.max_val v)))
              seen
      all_widened [] h = tt
      all_widened (u ∷ us) (hu, hus) = (widened s.min_val s.max_val v u hu, all_widened us hus)

  -- Another writer with the same bounds.
  record SameBounds (s s' : Writer T) : Type 0 where
    pub same_min : s'.min_val ≡ s.min_val
    pub same_max : s'.max_val ≡ s.max_val

  keep_bounds :
      (s s' : Writer T) (seen : List T) → SameBounds s s' → Bounded s seen → Bounded s' seen
  keep_bounds s s' seen same h = rw (same.same_min, same.same_max) h

  module _ (IsValue : T → Type 0) (lawful : IsLawful prim IsValue) (w : Width)
      (fits : prim.width ≡ stride_of w) where
    flushed :
        (codec : Codec) (s : Writer T)
        → (s' : Writer T) × (flush_block prim lt compress codec s ≡ ok s') × SameBounds s s'
    unfolding flush_block write_block
    flushed codec s =
        let (encoded, e) = encodes prim lt compress IsValue lawful w fits codec s.block_values in
        elim (Bool-cases (is_empty s.block_values)) [
          | inl nothing ↦ (s, rw nothing refl, record { same_min = refl; same_max = refl })
          | inr full ↦ (
            write_block prim lt compress codec encoded s,
            rw (full, e) refl,
            record { same_min = refl; same_max = refl },
          )
        ]

    ended :
        (codec : Codec) (s : Writer T)
        → (s' : Writer T) × (end_of_row prim lt compress codec s ≡ ok s') × SameBounds s s'
    unfolding end_of_row close_granule
    ended codec s = elim (Bool-cases (s.rows_in_current_granule == granule_size)) [
      | inl last ↦ elim (Bool-cases (leb block_buffer_size (length s.block_values * prim.width))) [
        | inl full ↦
            let (s', e, same) = flushed codec (close_granule prim lt compress s) in
            (s', rw (last, full) e, record { same_min = same.same_min; same_max = same.same_max })
        | inr room ↦ (
          close_granule prim lt compress s,
          rw (last, room) refl,
          record { same_min = refl; same_max = refl },
        )
      ]
      | inr inside ↦ (s, rw inside refl, record { same_min = refl; same_max = refl })
    ]

    rows_written :
        (codec : Codec) (values : List T) (s : Writer T) (seen : List T)
        → Bounded s seen
        → (s' : Writer T) × (write_rows prim lt compress codec values s ≡ ok s')
          × Bounded s' values
          × Bounded s' seen
    unfolding write_rows
    rows_written codec [] s seen h = (s, refl, tt, h)
    rows_written codec (v ∷ values) s seen h =
        let (s1, e, same) = ended codec (push_row prim lt compress v s) in
        let pushed = push_row-Bounded v s seen h in
        let (s', e', now, (own, before)) =
          rows_written codec values s1 (v ∷ seen)
            (keep_bounds (push_row prim lt compress v s) s1 (v ∷ seen) same pushed) in
        (s', rw e e', (own, now), before)

    -- For values of 1, 2, 4 or 8 bytes and a total order, every column is written, and none of its
    -- values is below the minimum or above the maximum that the zone map gets.
    pub write_column-InBounds :
        (codec : Codec) (values : List T)
        → (s : Writer T) × (write_column prim lt compress codec values ≡ ok s)
          × All (InBounds lt s.min_val s.max_val) values
    unfolding write_column
    write_column-InBounds codec values =
        let (s1, e, bounded, _) = rows_written codec values start [] tt in
        let (s, e', same) = flushed codec s1 in (s, rw e e', keep_bounds s1 s values same bounded)
