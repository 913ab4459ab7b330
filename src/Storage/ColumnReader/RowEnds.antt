-- ===== src/Storage/ColumnReader/RowEnds.antt =====
-- The end of a row: a granule closed, and its block written when it is large enough.
use tiny_olap.Base.{
  ℕ, ◌*◌, ◌<◌, ◌≤◌, List, [], ◌∷◌, ◌++◌, ◌≡◌, refl, ap, sym, ◌∙◌, inl, inr, Bool, true, false, ◌==◌,
  ==_iff, leb, length, is_empty, flatten, if◌then◌else◌, All, All-append, append_assoc, append-nil,
  Bool-cases, Result, ok, first_step, arith,
}
use tiny_olap.Encoding.Error.{EncodingError}
use tiny_olap.Encoding.Primitive.{Primitive}
use tiny_olap.Encoding.Codec as Codecs
use tiny_olap.Encoding.Codec.{Codec}
use tiny_olap.Storage.ColumnWriter.{
  granule_size, block_buffer_size, Writer, raw_bytes, write_block, flush_block, close_granule,
  end_of_row,
}
use tiny_olap.Storage.ColumnReader.Granules.{open_granule}
use tiny_olap.Storage.ColumnReader.Layout.{Block, all_granules, marks_in}
use tiny_olap.Storage.ColumnReader.Written.{
  flatten-append, all_granules-append, Stored, Buffered, stored_block, write_block-Stored,
  close_granule-Stored, close_granule-Buffered,
}

abbrev pub IsFull : {T : Type 0} → List T → Type 0
IsFull g = length g ≡ granule_size

flatten-open_granule : {T : Type 0} (p : List T) → flatten (open_granule p) ≡ p
flatten-open_granule [] = refl
flatten-open_granule (v ∷ vs) = append-nil (v ∷ vs)

no_rows : {T : Type 0} (g rest : List T) → IsFull g → is_empty (g ++ rest) ≡ true → ⊥
no_rows [] rest full h = absurd (omega arith)
no_rows (v ∷ vs) rest full h = cc

-- An empty buffer holds no granule.
pub no_granules :
    {T : Type 0} (hs gs : List (List T)) (p : List T)
    → All IsFull (hs ++ gs)
    → is_empty (flatten gs ++ p) ≡ true
    → gs ++ open_granule p ≡ []
no_granules [] [] [] full h = refl
no_granules [] [] (v ∷ vs) full h = cc
no_granules [] (g ∷ gs) p (hg, full) h =
    absurd (no_rows g (flatten gs ++ p) hg (rw (← append_assoc g (flatten gs) p) h))
no_granules (g ∷ hs) gs p (hg, full) h = no_granules hs gs p full h

module _ {T : Type 0} (prim : Primitive T) (lt : T → T → Bool) (compress : List ℕ → List ℕ)
    (codec : Codec) where
  pub flush_block-Flushed :
      (bs : List (Block T)) (gs : List (List T)) (p : List T) (s s' : Writer T)
      → Stored prim lt compress codec bs s
      → Buffered prim lt compress codec gs p s
      → is_empty s.block_values ≡ false
      → flush_block prim lt compress codec s ≡ ok s'
      → (encoded : List ℕ) × (s' ≡ write_block prim lt compress codec encoded s)
        × Stored prim lt compress codec
            (bs ++ (stored_block prim lt compress codec (gs ++ open_granule p) encoded ∷ []))
            s'
  unfolding flush_block
  flush_block-Flushed bs gs p s s' stored buffered rows e =
      let (encoded, made, given) =
        first_step (Codecs.encode codec (raw_bytes prim lt compress s.block_values) prim.width [])
          (λ encoded. ok (write_block prim lt compress codec encoded s)) s' (rw rows at e) in
      let is : s' ≡ write_block prim lt compress codec encoded s = cc in
      let held : s.block_values ≡ flatten (gs ++ open_granule p) =
        buffered.values
        ∙ sym (
            flatten-append gs (open_granule p)
            ∙ ap (λ t. flatten gs ++ t) (flatten-open_granule p)) in
      (
        encoded,
        is,
        rw is (
            write_block-Stored prim lt compress codec bs (gs ++ open_granule p) encoded s stored
              (record {
                some_granule = has_granule (gs ++ open_granule p) (rw held at rows);
                encodes = rw held at made;
              })
              buffered.marks),
      )
    where
      has_granule : (hs : List (List T)) → is_empty (flatten hs) ≡ false → 0 < length hs
      has_granule [] h = cc
      has_granule (h ∷ hs) rows = omega arith

  pub all_granules-stored_block :
      (bs : List (Block T)) (hs : List (List T)) (encoded : List ℕ)
      → all_granules (bs ++ (stored_block prim lt compress codec hs encoded ∷ []))
        ≡ all_granules bs ++ hs
  all_granules-stored_block bs hs encoded =
      all_granules-append bs (stored_block prim lt compress codec hs encoded ∷ [])
      ∙ ap (λ t. all_granules bs ++ t) (append-nil hs)

  -- The rows `seen` so far are in the blocks, the whole granules, and a part of one.
  pub record Progress (seen : List T) (s : Writer T) : Type 0 where
    pub bs : List (Block T)
    pub gs : List (List T)
    pub p : List T
    pub stored : Stored prim lt compress codec bs s
    pub buffered : Buffered prim lt compress codec gs p s
    pub full : All (λ g. length g ≡ granule_size) (all_granules bs ++ gs)
    pub short : length p < granule_size
    pub rows : flatten (all_granules bs ++ gs) ++ p ≡ seen

  close_last :
      (hs gs : List (List T)) (p : List T)
      → All IsFull (hs ++ gs)
      → IsFull p
      → All IsFull (hs ++ (gs ++ (p ∷ [])))
  close_last hs gs p full last =
      rw (← append_assoc hs gs (p ∷ [])) (All-append IsFull (hs ++ gs) (p ∷ []) full (last, tt))

  closed_rows :
      (hs gs : List (List T)) (p : List T)
      → flatten (hs ++ (gs ++ (p ∷ []))) ++ [] ≡ flatten (hs ++ gs) ++ p
  closed_rows hs gs p =
      append-nil (flatten (hs ++ (gs ++ (p ∷ []))))
      ∙ ap flatten (sym (append_assoc hs gs (p ∷ [])))
      ∙ flatten-append (hs ++ gs) (p ∷ [])
      ∙ ap (λ t. flatten (hs ++ gs) ++ t) (append-nil p)

  write_block-emptied :
      (encoded : List ℕ) (c : Writer T)
      → c.rows_in_current_granule ≡ 0
      → Buffered prim lt compress codec [] [] (write_block prim lt compress codec encoded c)
  unfolding write_block marks_in
  write_block-emptied encoded c rows = record {
    values = refl;
    marks = refl;
    rows = rows;
    block_rows = refl;
  }

  empty_buffer :
      (bs : List (Block T)) (hs : List (List T)) (seen : List T) (s : Writer T)
      → Stored prim lt compress codec bs s
      → Buffered prim lt compress codec [] [] s
      → all_granules bs ≡ hs
      → All IsFull hs
      → flatten hs ++ [] ≡ seen
      → Progress seen s
  empty_buffer bs hs seen s stored buffered e full rows = record {
    bs = bs;
    gs = [];
    p = [];
    stored = stored;
    buffered = buffered;
    full = rw (append-nil (all_granules bs), e) full;
    short = omega arith;
    rows = rw (append-nil (all_granules bs), e) rows;
  }

  close_granule-rows :
      (s : Writer T) → (close_granule prim lt compress s).rows_in_current_granule ≡ 0
  unfolding close_granule
  close_granule-rows s = refl

  has_rows :
      (gs : List (List T)) (v : T) (vs : List T) (s : Writer T)
      → s.block_values ≡ flatten gs ++ (v ∷ vs)
      → is_empty (close_granule prim lt compress s).block_values ≡ false
  unfolding close_granule
  has_rows gs v vs s e = rw e (not_empty (flatten gs))
    where
      not_empty : (xs : List T) → is_empty (xs ++ (v ∷ vs)) ≡ false
      not_empty [] = refl
      not_empty (x ∷ xs) = refl

  pub same_writer :
      (c s' : Writer T) {m : Result EncodingError (Writer T)} → m ≡ ok c → m ≡ ok s' → c ≡ s'
  same_writer c s' made e = cc

  -- A closed granule, with its block written or not.
  closed :
      (bs : List (Block T)) (gs : List (List T)) (v : T) (vs : List T) (s s' : Writer T)
      → Stored prim lt compress codec bs s
      → Buffered prim lt compress codec gs (v ∷ vs) s
      → All IsFull (all_granules bs ++ gs)
      → IsFull (v ∷ vs)
      → (if leb block_buffer_size (length s.block_values * prim.width)
          then flush_block prim lt compress codec (close_granule prim lt compress s)
          else ok (close_granule prim lt compress s))
        ≡ ok s'
      → Progress (flatten (all_granules bs ++ gs) ++ (v ∷ vs)) s'
  closed bs gs v vs s s' stored buffered full last e =
      let p = v ∷ vs in
      let c = close_granule prim lt compress s in
      let hs = all_granules bs ++ (gs ++ (p ∷ [])) in
      let stored_c = close_granule-Stored prim lt compress codec bs s stored in
      let buffered_c = close_granule-Buffered prim lt compress codec gs v vs s buffered in
      let all_full = close_last (all_granules bs) gs p full last in
      let rows = closed_rows (all_granules bs) gs p in
      elim (Bool-cases (leb block_buffer_size (length s.block_values * prim.width))) [
        | inl big ↦
            let (encoded, is, done) =
              flush_block-Flushed bs (gs ++ (p ∷ [])) [] c s' stored_c buffered_c
                (has_rows gs v vs s buffered.values) (rw big at e) in
            let granules =
              all_granules-stored_block bs ((gs ++ (p ∷ [])) ++ []) encoded
              ∙ ap (λ t. all_granules bs ++ t) (append-nil (gs ++ (p ∷ []))) in
            empty_buffer
              (bs ++ (stored_block prim lt compress codec ((gs ++ (p ∷ [])) ++ []) encoded ∷ [])) hs
              (flatten (all_granules bs ++ gs) ++ p) s' done
              (rw is (write_block-emptied encoded c (close_granule-rows s))) granules all_full rows
        | inr room ↦
            let same : c ≡ s' = same_writer c s' refl (rw room at e) in
            record {
              bs = bs;
              gs = gs ++ (p ∷ []);
              p = [];
              stored = rw (← same) stored_c;
              buffered = rw (← same) buffered_c;
              full = all_full;
              short = omega arith;
              rows = rows;
            }
      ]

  pub ended :
      (bs : List (Block T)) (gs : List (List T)) (q : List T) (s s' : Writer T)
      → Stored prim lt compress codec bs s
      → Buffered prim lt compress codec gs q s
      → All IsFull (all_granules bs ++ gs)
      → 0 < length q
      → length q ≤ granule_size
      → end_of_row prim lt compress codec s ≡ ok s'
      → Progress (flatten (all_granules bs ++ gs) ++ q) s'
  unfolding end_of_row
  ended bs gs [] s s' stored buffered full some_row few e = absurd (omega arith)
  ended bs gs (v ∷ vs) s s' stored buffered full some_row few e =
      elim (Bool-cases (s.rows_in_current_granule == granule_size)) [
        | inl last ↦
            let whole : length (v ∷ vs) ≡ granule_size =
              sym buffered.rows ∙ (==_iff s.rows_in_current_granule granule_size).0 last in
            closed bs gs v vs s s' stored buffered full whole (rw last at e)
        | inr inside ↦
            let same : s ≡ s' = same_writer s s' refl (rw inside at e) in
            record {
              bs = bs;
              gs = gs;
              p = v ∷ vs;
              stored = rw (← same) stored;
              buffered = rw (← same) buffered;
              full = full;
              short = less (length (v ∷ vs)) (rw (← buffered.rows) inside) few;
              rows = refl;
            }
      ]
    where
      less : (n : ℕ) → (n == granule_size) ≡ false → n ≤ granule_size → n < granule_size
      less n h few = ground arith
