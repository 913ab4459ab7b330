-- ===== src/Storage/ColumnReader/Written.antt =====
-- What the column writer has written after each row: whole blocks in the files, whole granules and
-- a part of one in the buffer.
use tiny_olap.Base.{
  ℕ, suc, ◌+◌, ◌*◌, ◌<◌, List, [], ◌∷◌, ◌++◌, ◌≡◌, refl, ap, sym, ◌∙◌, Bool, false, ◌==◌, length,
  length-append, flatten, map, All, All-append, append_assoc, append-nil, ok, arith,
}
use tiny_olap.Encoding.Primitive.{Primitive}
use tiny_olap.Encoding.Codec as Codecs
use tiny_olap.Encoding.Codec.{Codec}
use tiny_olap.Storage.Mark.{Mark, to_bytes}
use tiny_olap.Storage.ColumnWriter.{
  Writer, patch_marks, raw_bytes, write_block, push_row, close_granule,
}
use tiny_olap.Storage.ColumnReader.Granules.{open_granule}
use tiny_olap.Storage.ColumnReader.Layout.{
  Block, all_granules, frame, layout_bin, marks_in, layout_marks, length-frame, marks_in-append,
  layout_bin-append, layout_marks-append,
}

map-append : {A B : Type 0} (f : A → B) (xs ys : List A) → map f (xs ++ ys) ≡ map f xs ++ map f ys
map-append f [] ys = refl
map-append f (x ∷ xs) ys = ap (λ t. f x ∷ t) (map-append f xs ys)

pub flatten-append :
    {A : Type 0} (xs ys : List (List A)) → flatten (xs ++ ys) ≡ flatten xs ++ flatten ys
flatten-append [] ys = refl
flatten-append (x ∷ xs) ys =
    rw (flatten-append xs ys, append_assoc x (flatten xs) (flatten ys)) refl

pub all_granules-append :
    {T : Type 0} (bs cs : List (Block T))
    → all_granules (bs ++ cs) ≡ all_granules bs ++ all_granules cs
all_granules-append [] cs = refl
all_granules-append (b ∷ bs) cs =
    rw (all_granules-append bs cs, append_assoc b.granules (all_granules bs) (all_granules cs)) refl

module _ {T : Type 0} (prim : Primitive T) (lt : T → T → Bool) (compress : List ℕ → List ℕ)
    (codec : Codec) where
  abbrev bin_of : List (Block T) → List ℕ
  bin_of bs = layout_bin codec prim.width compress bs

  abbrev marks_at : ℕ → List (Block T) → List Mark
  marks_at offset bs = layout_marks codec prim.width compress offset bs

  abbrev pending : ℕ → List (List T) → List Mark
  pending offset gs = marks_in codec prim.width compress offset 0 gs

  pub record IsEncoded (b : Block T) : Type 0 where
    pub some_granule : 0 < length b.granules
    pub encodes :
        Codecs.encode codec (raw_bytes prim lt compress (flatten b.granules)) prim.width []
        ≡ ok b.encoded

  -- The files hold the blocks `bs`.
  pub record Stored (bs : List (Block T)) (s : Writer T) : Type 0 where
    pub blocks : All IsEncoded bs
    pub bin : s.bin ≡ layout_bin codec prim.width compress bs
    pub marks : s.marks ≡ flatten (map to_bytes (layout_marks codec prim.width compress 0 bs))
    pub bin_bytes : s.bin_bytes ≡ length (layout_bin codec prim.width compress bs)

  -- The buffer holds the granules `gs` and the rows `p` of the next one.
  pub record Buffered (gs : List (List T)) (p : List T) (s : Writer T) : Type 0 where
    pub values : s.block_values ≡ flatten gs ++ p
    pub marks : s.pending_marks ≡ marks_in codec prim.width compress 0 0 (gs ++ open_granule p)
    pub rows : s.rows_in_current_granule ≡ length p
    pub block_rows : s.rows_in_current_block ≡ length (flatten gs ++ p)

  patched : ℕ → List Mark → List Mark
  patched offset [] = []
  patched offset (m ∷ ms) =
      record { block_offset = offset; decompressed_offset = m.decompressed_offset }
      ∷ patched offset ms

  patch_marks-patched :
      (offset : ℕ) (ms : List Mark) (out : List ℕ)
      → patch_marks offset ms out ≡ out ++ flatten (map to_bytes (patched offset ms))
  unfolding patch_marks patched
  patch_marks-patched offset [] out = sym (append-nil out)
  patch_marks-patched offset (m ∷ ms) out =
      let mark : Mark = record {
        block_offset = offset;
        decompressed_offset = m.decompressed_offset;
      } in
      patch_marks-patched offset ms (out ++ to_bytes mark)
      ∙ append_assoc out (to_bytes mark) (flatten (map to_bytes (patched offset ms)))

  patched-marks_in :
      (offset from : ℕ) (gs : List (List T))
      → patched offset (marks_in codec prim.width compress 0 from gs)
        ≡ marks_in codec prim.width compress offset from gs
  unfolding patched marks_in
  patched-marks_in offset from [] = refl
  patched-marks_in offset from (g ∷ gs) =
      ap (λ t. record { block_offset = offset; decompressed_offset = from } ∷ t)
        (patched-marks_in offset (from + length g * prim.width) gs)

  abbrev pub stored_block : List (List T) → List ℕ → Block T
  stored_block gs encoded = record { granules = gs; encoded = encoded }

  -- A written block joins the others.
  pub write_block-Stored :
      (bs : List (Block T)) (gs : List (List T)) (encoded : List ℕ) (s : Writer T)
      → Stored bs s
      → IsEncoded (stored_block gs encoded)
      → s.pending_marks ≡ pending 0 gs
      → Stored (bs ++ (stored_block gs encoded ∷ [])) (write_block prim lt compress codec encoded s)
  unfolding write_block layout_bin layout_marks
  write_block-Stored bs gs encoded s stored one marks =
      let b = stored_block gs encoded in
      let offset = length (bin_of bs) in
      let same : 0 + offset ≡ offset = omega arith in
      record {
        blocks = All-append IsEncoded bs (b ∷ []) stored.blocks (one, tt);
        bin =
            rw
              (
                stored.bin,
                layout_bin-append codec prim.width compress bs (b ∷ []),
                append-nil (frame codec prim.width compress encoded),
              )
              refl;
        marks =
            rw
              (
                stored.bin_bytes,
                marks,
                stored.marks,
                patch_marks-patched offset (pending 0 gs) (flatten (map to_bytes (marks_at 0 bs))),
                patched-marks_in offset 0 gs,
                layout_marks-append codec prim.width compress 0 bs (b ∷ []),
                same,
                append-nil (pending offset gs),
                map-append to_bytes (marks_at 0 bs) (pending offset gs),
                flatten-append (map to_bytes (marks_at 0 bs)) (map to_bytes (pending offset gs)),
              )
              refl;
        bin_bytes =
            rw
              (
                stored.bin_bytes,
                layout_bin-append codec prim.width compress bs (b ∷ []),
                append-nil (frame codec prim.width compress encoded),
              )
              (omega (
                arith,
                length-append (bin_of bs) (frame codec prim.width compress encoded),
                length-frame codec prim.width compress encoded,
              ));
      }

  same_mark :
      (gs : List (List T)) (p q : List T)
      → marks_in codec prim.width compress 0 0 (gs ++ (p ∷ []))
        ≡ marks_in codec prim.width compress 0 0 (gs ++ (q ∷ []))
  unfolding marks_in
  same_mark gs p q =
      marks_in-append codec prim.width compress 0 0 gs (p ∷ [])
      ∙ sym (marks_in-append codec prim.width compress 0 0 gs (q ∷ []))

  push_row-pending :
      (gs : List (List T)) (p : List T) (v : T) (s : Writer T)
      → Buffered gs p s
      → (push_row prim lt compress v s).pending_marks
        ≡ marks_in codec prim.width compress 0 0 (gs ++ open_granule (p ++ (v ∷ [])))
  unfolding push_row
  push_row-pending gs [] v s buffered =
      let same : 0 + length (flatten gs) * prim.width ≡ length (flatten gs) * prim.width =
        omega arith in
      unfold marks_in in
      rw
        (
          buffered.rows,
          buffered.marks,
          buffered.block_rows,
          append-nil gs,
          append-nil (flatten gs),
          marks_in-append codec prim.width compress 0 0 gs ((v ∷ []) ∷ []),
          same,
        )
        refl
  push_row-pending gs (u ∷ us) v s buffered =
      rw (buffered.rows, nonzero (length us), buffered.marks)
        (same_mark gs (u ∷ us) (u ∷ (us ++ (v ∷ []))))
    where
      nonzero : (n : ℕ) → (suc n == 0) ≡ false
      nonzero n = ground arith

  pub push_row-Buffered :
      (gs : List (List T)) (p : List T) (v : T) (s : Writer T)
      → Buffered gs p s
      → Buffered gs (p ++ (v ∷ [])) (push_row prim lt compress v s)
  push_row-Buffered gs p v s buffered = record {
    values = unfold push_row in rw buffered.values (append_assoc (flatten gs) p (v ∷ []));
    marks = push_row-pending gs p v s buffered;
    rows = unfold push_row in rw buffered.rows (omega (arith, length-append p (v ∷ [])));
    block_rows =
        unfold push_row in
        rw buffered.block_rows (
          omega (
            arith,
            length-append (flatten gs) p,
            length-append (flatten gs) (p ++ (v ∷ [])),
            length-append p (v ∷ []),
          ));
  }

  pub push_row-Stored :
      (bs : List (Block T)) (v : T) (s : Writer T)
      → Stored bs s
      → Stored bs (push_row prim lt compress v s)
  unfolding push_row
  push_row-Stored bs v s stored = record {
    blocks = stored.blocks;
    bin = stored.bin;
    marks = stored.marks;
    bin_bytes = stored.bin_bytes;
  }

  pub close_granule-Stored :
      (bs : List (Block T)) (s : Writer T)
      → Stored bs s
      → Stored bs (close_granule prim lt compress s)
  unfolding close_granule
  close_granule-Stored bs s stored = record {
    blocks = stored.blocks;
    bin = stored.bin;
    marks = stored.marks;
    bin_bytes = stored.bin_bytes;
  }

  pub close_granule-Buffered :
      (gs : List (List T)) (v : T) (vs : List T) (s : Writer T)
      → Buffered gs (v ∷ vs) s
      → Buffered (gs ++ ((v ∷ vs) ∷ [])) [] (close_granule prim lt compress s)
  unfolding close_granule
  close_granule-Buffered gs v vs s buffered =
      let p = v ∷ vs in
      let joined : flatten (gs ++ (p ∷ [])) ++ [] ≡ flatten gs ++ p =
        append-nil (flatten (gs ++ (p ∷ [])))
        ∙ flatten-append gs (p ∷ [])
        ∙ ap (λ t. flatten gs ++ t) (append-nil p) in
      record {
        values = rw joined buffered.values;
        marks = rw (append-nil (gs ++ (p ∷ []))) buffered.marks;
        rows = refl;
        block_rows = rw joined buffered.block_rows;
      }
