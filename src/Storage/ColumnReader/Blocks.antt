-- ===== src/Storage/ColumnReader/Blocks.antt =====
-- Where the marks of a laid out column point: every granule is found by its mark and the next one.
use tiny_olap.Base.{
  ℕ, zero, suc, ◌+◌, ◌*◌, ◌<◌, List, [], ◌∷◌, ◌++◌, ◌≡◌, refl, ap, ◌∙◌, ◌⊎◌, inl, inr, some, length,
  length-append, drop, drop_prefix, get_elem?, flatten, All, append-nil, arith,
}
use tiny_olap.Encoding.Codec.{Codec}
use tiny_olap.Storage.Mark.{Mark}
use tiny_olap.Storage.ColumnReader.{granule_end}
use tiny_olap.Storage.ZoneMapFile.RoundTrip.{drop-drop}
use tiny_olap.Storage.ColumnReader.Layout.{
  Block, all_granules, frame, size-append, layout_bin, marks_in, layout_marks,
}

-- An element of joined lists is one of the first list or of the second.
split_index :
    {A : Type 0} (xs ys : List A) (i : ℕ) {a : A}
    → get_elem? (xs ++ ys) i ≡ some a
    → (get_elem? xs i ≡ some a) ⊎ ((j : ℕ) × (i ≡ length xs + j) × (get_elem? ys j ≡ some a))
split_index [] ys i h = inr (i, omega arith, h)
split_index (x ∷ xs) ys zero h = inl h
split_index (x ∷ xs) ys (suc i) h = elim (split_index xs ys i h) [
  | inl found ↦ inl found
  | inr (j, at, found) ↦ inr (j, omega (arith, at), found)
]

get_elem?-past :
    {A : Type 0} (xs ys : List A) (j : ℕ) → get_elem? (xs ++ ys) (length xs + j) ≡ get_elem? ys j
get_elem?-past [] ys j = let same : 0 + j ≡ j = omega arith in rw same refl
get_elem?-past (x ∷ xs) ys j =
    let same : suc (length xs) + j ≡ suc (length xs + j) = omega arith in
    rw same (get_elem?-past xs ys j)

zero_plus : (n : ℕ) → 0 + n ≡ n
zero_plus n = omega arith

module _ (codec : Codec) (width : ℕ) (compress : List ℕ → List ℕ) {T : Type 0} where
  length-marks_in :
      (offset start : ℕ) (gs : List (List T))
      → length (marks_in codec width compress offset start gs) ≡ length gs
  unfolding marks_in
  length-marks_in offset start [] = refl
  length-marks_in offset start (g ∷ gs) =
      ap suc (length-marks_in offset (start + length g * width) gs)

  pub length-layout_marks :
      (offset : ℕ) (bs : List (Block T))
      → length (layout_marks codec width compress offset bs) ≡ length (all_granules bs)
  unfolding layout_marks
  length-layout_marks offset [] = refl
  length-layout_marks offset (b ∷ bs) =
      let next = offset + length (frame codec width compress b.encoded) in
      let first = marks_in codec width compress offset 0 b.granules in
      omega (
        arith,
        length-append first (layout_marks codec width compress next bs),
        length-append b.granules (all_granules bs),
        length-marks_in offset 0 b.granules,
        length-layout_marks next bs,
      )

  -- A granule among those of a block whose marks are followed by marks of other blocks.
  record Inside (offset start : ℕ) (gs : List (List T)) (later : List Mark) (idx : ℕ) (g : List T)
      : Type 0 where
    pub before : List (List T)
    pub after : List (List T)
    pub parts : gs ≡ before ++ (g ∷ after)
    pub found :
        get_elem? (marks_in codec width compress offset start gs ++ later) idx
        ≡ some (record {
          block_offset = offset;
          decompressed_offset = start + length (flatten before) * width;
        })
    pub ends :
        granule_end
          (get_elem? (marks_in codec width compress offset start gs ++ later) (suc idx))
          offset
          (start + length (flatten gs) * width)
        ≡ start + length (flatten before) * width + length g * width

  first-Inside :
      (offset start : ℕ) (g : List T) (gs : List (List T)) (later : List Mark)
      → ((n : ℕ) → granule_end (get_elem? later 0) offset n ≡ n)
      → Inside offset start (g ∷ gs) later zero g
  unfolding marks_in granule_end
  first-Inside offset start g [] later elsewhere = record {
    before = [];
    after = [];
    parts = refl;
    found = let same : start + 0 * width ≡ start = omega arith in rw same refl;
    ends = elsewhere (start + length (g ++ []) * width) ∙ (rw (append-nil g) (omega arith));
  }
  first-Inside offset start g (g' ∷ gs) later elsewhere = record {
    before = [];
    after = g' ∷ gs;
    parts = refl;
    found = let same : start + 0 * width ≡ start = omega arith in rw same refl;
    ends = ground arith;
  }

  locate-Inside :
      (offset start : ℕ) (gs : List (List T)) (later : List Mark) (idx : ℕ) (g : List T)
      → ((n : ℕ) → granule_end (get_elem? later 0) offset n ≡ n)
      → get_elem? gs idx ≡ some g
      → Inside offset start gs later idx g
  unfolding marks_in
  locate-Inside offset start [] later idx g elsewhere h = cc
  locate-Inside offset start (g0 ∷ gs) later zero g elsewhere h =
      let same : g0 ≡ g = cc in rw (← same) (first-Inside offset start g0 gs later elsewhere)
  locate-Inside offset start (g0 ∷ gs) later (suc idx) g elsewhere h =
      let rest = locate-Inside offset (start + length g0 * width) gs later idx g elsewhere h in
      let sum : start + length g0 * width + length (flatten rest.before) * width
          ≡ start + length (g0 ++ flatten rest.before) * width =
        size-append width start g0 (flatten rest.before) in
      let total : start + length g0 * width + length (flatten gs) * width
          ≡ start + length (g0 ++ flatten gs) * width =
        size-append width start g0 (flatten gs) in
      record {
        before = g0 ∷ rest.before;
        after = rest.after;
        parts = ap (λ t. g0 ∷ t) rest.parts;
        found = rw (← sum) rest.found;
        ends = rw (← sum, ← total) rest.ends;
      }

  -- Every block holds a granule, and its frame is not empty.
  elsewhere :
      (offset : ℕ) (bs : List (Block T)) (next : ℕ)
      → All (λ b. 0 < length b.granules) bs
      → offset < next
      → (n : ℕ) → granule_end (get_elem? (layout_marks codec width compress next bs) 0) offset n ≡ n
  unfolding layout_marks granule_end
  elsewhere offset [] next full later n = refl
  elsewhere offset (b ∷ bs) next (some_granule, full) later n = of_granules b.granules some_granule
    where
      of_granules :
          (gs : List (List T))
          → 0 < length gs
          → granule_end
              (get_elem?
                (marks_in codec width compress next 0 gs
                  ++ layout_marks codec width compress
                      (next + length (frame codec width compress b.encoded))
                      bs)
                0)
              offset
              n
            ≡ n
      of_granules [] pos = absurd (omega arith)
      of_granules (g ∷ gs) pos = unfold marks_in in ground arith

  -- The mark of a granule, and the block it points into.
  pub record At (offset : ℕ) (bs : List (Block T)) (idx : ℕ) (g : List T) : Type 0 where
    pub block : Block T
    pub index : ℕ
    pub member : get_elem? bs index ≡ some block
    pub base : ℕ
    pub rest : List ℕ
    pub before : List (List T)
    pub after : List (List T)
    pub framed :
        drop base (layout_bin codec width compress bs)
        ≡ frame codec width compress block.encoded ++ rest
    pub parts : block.granules ≡ before ++ (g ∷ after)
    pub found :
        get_elem? (layout_marks codec width compress offset bs) idx
        ≡ some (record {
          block_offset = offset + base;
          decompressed_offset = length (flatten before) * width;
        })
    pub ends :
        granule_end
          (get_elem? (layout_marks codec width compress offset bs) (suc idx))
          (offset + base)
          (length (flatten block.granules) * width)
        ≡ length (flatten before) * width + length g * width

  in_first :
      (offset : ℕ) (b : Block T) (bs : List (Block T)) (idx : ℕ) (g : List T)
      → All (λ b. 0 < length b.granules) bs
      → get_elem? b.granules idx ≡ some g
      → At offset (b ∷ bs) idx g
  unfolding layout_bin layout_marks
  in_first offset b bs idx g full h =
      let next = offset + length (frame codec width compress b.encoded) in
      let within =
        locate-Inside offset 0 b.granules (layout_marks codec width compress next bs) idx g
          (elsewhere offset bs next full (omega arith)) h in
      let same : offset + 0 ≡ offset = omega arith in
      record {
        block = b;
        index = 0;
        member = refl;
        base = 0;
        rest = layout_bin codec width compress bs;
        before = within.before;
        after = within.after;
        framed = refl;
        parts = within.parts;
        found = rw (same, ← zero_plus (length (flatten within.before) * width)) within.found;
        ends =
            rw
              (
                same,
                ← zero_plus (length (flatten within.before) * width),
                ← zero_plus (length (flatten b.granules) * width),
              )
              within.ends;
      }

  behind_first :
      (offset : ℕ) (b : Block T) (bs : List (Block T)) (j : ℕ) (g : List T)
      → At (offset + length (frame codec width compress b.encoded)) bs j g
      → At offset (b ∷ bs) (length b.granules + j) g
  unfolding layout_bin layout_marks
  behind_first offset b bs j g at =
      let first = frame codec width compress b.encoded in
      let marks = marks_in codec width compress offset 0 b.granules in
      let later = layout_marks codec width compress (offset + length first) bs in
      let count = length-marks_in offset 0 b.granules in
      let sum : offset + length first + at.base ≡ offset + (length first + at.base) = omega arith in
      let shift : suc (length b.granules + j) ≡ length b.granules + suc j = omega arith in
      record {
        block = at.block;
        index = suc at.index;
        member = at.member;
        base = length first + at.base;
        rest = at.rest;
        before = at.before;
        after = at.after;
        framed =
            rw
              (
                drop-drop (length first) at.base (first ++ layout_bin codec width compress bs),
                drop_prefix (length first) first (layout_bin codec width compress bs) refl,
              )
              at.framed;
        parts = at.parts;
        found = rw (← count, get_elem?-past marks later j, ← sum) at.found;
        ends = rw (shift, ← count, get_elem?-past marks later (suc j), ← sum) at.ends;
      }

  pub locate :
      (offset : ℕ) (bs : List (Block T)) (idx : ℕ) (g : List T)
      → All (λ b. 0 < length b.granules) bs
      → get_elem? (all_granules bs) idx ≡ some g
      → At offset bs idx g
  locate offset [] idx g full h = cc
  locate offset (b ∷ bs) idx g (some_granule, full) h =
      elim (split_index b.granules (all_granules bs) idx h) [
        | inl found ↦ in_first offset b bs idx g full found
        | inr (j, at, found) ↦ rw at (
            behind_first offset b bs j g
              (locate (offset + length (frame codec width compress b.encoded)) bs j g full found))
      ]
