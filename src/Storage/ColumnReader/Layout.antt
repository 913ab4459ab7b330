-- ===== src/Storage/ColumnReader/Layout.antt =====
-- The files of a column as blocks of granules, and where their marks lie.
use tiny_olap.Base.{
  ℕ, ◌+◌, ◌*◌, ◌%◌, List, [], ◌∷◌, ◌++◌, ◌≡◌, refl, ap, length, length-append, flatten,
  append_assoc, arith,
}
use tiny_olap.Base.Words.{word_mod, to_le_bytes, length-to_le_bytes}
use tiny_olap.Encoding.Codec as Codecs
use tiny_olap.Encoding.Codec.{Codec}
use tiny_olap.Storage.Mark.{Mark}

-- A block on disk: the granules it holds, and the bytes given to lz4.
pub record Block (T : Type 0) : Type 0 where
  pub granules : List (List T)
  pub encoded : List ℕ

abbrev pub all_granules : {T : Type 0} → List (Block T) → List (List T)
all_granules [] = []
all_granules (b ∷ bs) = b.granules ++ all_granules bs

-- Two parts of a block one after the other.
pub size-append :
    {A : Type 0} (width start : ℕ) (xs ys : List A)
    → start + length xs * width + length ys * width ≡ start + length (xs ++ ys) * width
size-append width start xs ys = grind (arith, length-append xs ys)

module _ (codec : Codec) (width : ℕ) (compress : List ℕ → List ℕ) where
  abbrev pub frame : List ℕ → List ℕ
  frame encoded =
      Codecs.tag codec
      ∷ (to_le_bytes 4 (length (compress encoded) % word_mod 4) ++ compress encoded)

  pub length-frame : (encoded : List ℕ) → length (frame encoded) ≡ 5 + length (compress encoded)
  length-frame encoded =
      let len = to_le_bytes 4 (length (compress encoded) % word_mod 4) in
      omega (
        arith,
        length-append len (compress encoded),
        length-to_le_bytes 4 (length (compress encoded) % word_mod 4),
      )

  module _ {T : Type 0} where
    unfoldable pub layout_bin : List (Block T) → List ℕ
    layout_bin [] = []
    layout_bin (b ∷ bs) = frame b.encoded ++ layout_bin bs

    -- The marks of granules that follow each other in the block at an offset.
    unfoldable pub marks_in : ℕ → ℕ → List (List T) → List Mark
    marks_in offset start [] = []
    marks_in offset start (g ∷ gs) =
        record { block_offset = offset; decompressed_offset = start }
        ∷ marks_in offset (start + length g * width) gs

    unfoldable pub layout_marks : ℕ → List (Block T) → List Mark
    layout_marks offset [] = []
    layout_marks offset (b ∷ bs) =
        marks_in offset 0 b.granules ++ layout_marks (offset + length (frame b.encoded)) bs

    pub marks_in-append :
        (offset start : ℕ) (gs hs : List (List T))
        → marks_in offset start (gs ++ hs)
          ≡ marks_in offset start gs ++ marks_in offset (start + length (flatten gs) * width) hs
    unfolding marks_in
    marks_in-append offset start [] hs =
        let same : start + 0 * width ≡ start = omega arith in rw same refl
    marks_in-append offset start (g ∷ gs) hs =
        let same : start + length g * width + length (flatten gs) * width
            ≡ start + length (g ++ flatten gs) * width =
          size-append width start g (flatten gs) in
        ap (λ t. record { block_offset = offset; decompressed_offset = start } ∷ t)
          (rw (← same) (marks_in-append offset (start + length g * width) gs hs))

    pub layout_bin-append :
        (bs cs : List (Block T)) → layout_bin (bs ++ cs) ≡ layout_bin bs ++ layout_bin cs
    unfolding layout_bin
    layout_bin-append [] cs = refl
    layout_bin-append (b ∷ bs) cs =
        rw (layout_bin-append bs cs, append_assoc (frame b.encoded) (layout_bin bs) (layout_bin cs))
          refl

    pub layout_marks-append :
        (offset : ℕ) (bs cs : List (Block T))
        → layout_marks offset (bs ++ cs)
          ≡ layout_marks offset bs ++ layout_marks (offset + length (layout_bin bs)) cs
    unfolding layout_marks layout_bin
    layout_marks-append offset [] cs = let same : offset + 0 ≡ offset = omega arith in rw same refl
    layout_marks-append offset (b ∷ bs) cs =
        let first = frame b.encoded in
        let same : offset + length (first ++ layout_bin bs)
            ≡ offset + length first + length (layout_bin bs) =
          omega (arith, length-append first (layout_bin bs)) in
        let later = layout_marks (offset + length (first ++ layout_bin bs)) cs in
        rw (layout_marks-append (offset + length first) bs cs, same)
          (append_assoc_back (marks_in offset 0 b.granules)
            (layout_marks (offset + length first) bs)
            (layout_marks (offset + length first + length (layout_bin bs)) cs))
      where
        append_assoc_back : (xs ys zs : List Mark) → xs ++ (ys ++ zs) ≡ (xs ++ ys) ++ zs
        append_assoc_back xs ys zs = simp append_assoc
