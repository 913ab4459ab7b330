-- ===== src/Storage/ColumnReader/Marks.antt =====
-- The marks of a laid out column have offsets of 64 bits when the column is small enough.
use tiny_olap.Base.{
  ℕ, zero, suc, ◌+◌, ◌*◌, ◌<◌, List, [], ◌∷◌, ◌++◌, ◌≡◌, refl, some, length, length-append, flatten,
  get_elem?, All, All-append, arith,
}
use tiny_olap.Base.Words.{word_mod}
use tiny_olap.Encoding.Codec.{Codec}
use tiny_olap.Storage.Mark.RoundTrip.{IsMark}
use tiny_olap.Storage.ColumnReader.Layout.{
  Block, all_granules, frame, layout_bin, marks_in, layout_marks, size-append,
}
use tiny_olap.Storage.ColumnReader.Written.{flatten-append}

module _ (codec : Codec) (width : ℕ) (compress : List ℕ → List ℕ) {T : Type 0} where
  marks_in-IsMark :
      (offset from : ℕ) (gs : List (List T))
      → offset < word_mod 8
      → from + length (flatten gs) * width < word_mod 8
      → All IsMark (marks_in codec width compress offset from gs)
  unfolding marks_in
  marks_in-IsMark offset from [] ho hf = tt
  marks_in-IsMark offset from (g ∷ gs) ho hf =
      let sum = size-append width from g (flatten gs) in
      (
        record { block_fits = ho; offset_fits = omega (arith, hf) },
        marks_in-IsMark offset (from + length g * width) gs ho (rw sum hf),
      )

  pub layout_marks-IsMark :
      (offset : ℕ) (bs : List (Block T))
      → offset + length (layout_bin codec width compress bs) < word_mod 8
      → length (flatten (all_granules bs)) * width < word_mod 8
      → All IsMark (layout_marks codec width compress offset bs)
  unfolding layout_marks layout_bin
  layout_marks-IsMark offset [] ho hf = tt
  layout_marks-IsMark offset (b ∷ bs) ho hf =
      let first = frame codec width compress b.encoded in
      let rest = layout_bin codec width compress bs in
      let sizes : length (flatten b.granules) * width + length (flatten (all_granules bs)) * width
          ≡ length (flatten b.granules ++ flatten (all_granules bs)) * width =
        distribute (flatten b.granules) (flatten (all_granules bs)) in
      let total : length (flatten b.granules ++ flatten (all_granules bs)) * width < word_mod 8 =
        rw (← flatten-append b.granules (all_granules bs)) hf in
      All-append IsMark (marks_in codec width compress offset 0 b.granules)
        (layout_marks codec width compress (offset + length first) bs)
        (marks_in-IsMark offset 0 b.granules (omega arith) (omega arith))
        (layout_marks-IsMark (offset + length first) bs (omega (arith, length-append first rest))
          (omega arith))
    where
      distribute :
          (xs ys : List T) → length xs * width + length ys * width ≡ length (xs ++ ys) * width
      distribute xs ys = grind (arith, length-append xs ys)

pub lt→get_elem? :
    {A : Type 0} (xs : List A) (i : ℕ) → i < length xs → (x : A) × (get_elem? xs i ≡ some x)
lt→get_elem? [] i h = absurd (omega arith)
lt→get_elem? (x ∷ xs) zero h = (x, refl)
lt→get_elem? (x ∷ xs) (suc i) h = lt→get_elem? xs i (omega arith)

All-left : {A : Type 0} (P : A → Type 0) (xs ys : List A) → All P (xs ++ ys) → All P xs × All P ys
All-left P [] ys h = (tt, h)
All-left P (x ∷ xs) ys (hx, h) = let (left, right) = All-left P xs ys h in ((hx, left), right)

pub All-granule :
    {A : Type 0} (P : A → Type 0) (gs : List (List A)) (i : ℕ) (g : List A)
    → All P (flatten gs)
    → get_elem? gs i ≡ some g
    → All P g
All-granule P [] i g h e = cc
All-granule P (x ∷ gs) zero g h e =
    let same : x ≡ g = cc in rw (← same) (All-left P x (flatten gs) h).0
All-granule P (x ∷ gs) (suc i) g h e = All-granule P gs i g (All-left P x (flatten gs) h).1 e
