-- ===== src/Storage/ColumnReader/RoundTrip.antt =====
-- A written column is read back, granule by granule and in any order.
use tiny_olap.Base.{
  ℕ, ◌*◌, ◌<◌, List, [], ◌∷◌, ◌≡◌, refl, ap, ◌∙◌, Bool, Option, none, some, length, length-append,
  flatten, get_elem?, get_elem?-lt, All, Result, ok, arith,
}
use tiny_olap.Base.Words.{word_mod}
use tiny_olap.Encoding.Primitive.{Primitive, IsLawful}
use tiny_olap.Encoding.Delta.RoundTrip.{Width, stride_of}
use tiny_olap.Encoding.Codec.{Codec}
use tiny_olap.Storage.Mark.{Mark, read_all}
use tiny_olap.Storage.Mark.RoundTrip.{read_all-to_bytes}
use tiny_olap.Storage.ColumnWriter.{Writer, write_column}
use tiny_olap.Storage.ZoneMapFile.{ReadError}
use tiny_olap.Storage.ColumnReader.{ColumnReader, open_column, granule_count, read_at, read_granule}
use tiny_olap.Storage.ColumnReader.Granules.{granules_of, flatten-granules_of}
use tiny_olap.Storage.ColumnReader.Layout.{
  Block, all_granules, frame, length-frame, layout_bin, layout_marks,
}
use tiny_olap.Storage.ColumnReader.Blocks.{length-layout_marks}
use tiny_olap.Storage.ColumnReader.Reads.{IsBlock, IsCached, reader_of, read_granule-reader_of}
use tiny_olap.Storage.ColumnReader.Written.{IsEncoded}
use tiny_olap.Storage.ColumnReader.Marks.{layout_marks-IsMark, lt→get_elem?, All-granule}
use tiny_olap.Storage.ColumnReader.Rows.{Column, write_column-Column}

module _ {T : Type 0} (prim : Primitive T) (decompress : List ℕ → Option (List ℕ)) where
  -- The readers after reads of granules, in any order.
  pub data Reached (first : ColumnReader) : ColumnReader → Type 0 where
    opened : Reached first first
    reading :
        (idx : ℕ) (g : List T) (r r' : ColumnReader)
        → Reached first r
        → read_granule prim decompress idx r ≡ ok (g, r')
        → Reached first r'

module _ {T : Type 0} (prim : Primitive T) (lt : T → T → Bool) (compress : List ℕ → List ℕ)
    (decompress : List ℕ → Option (List ℕ))
    (decompress-compress : (bytes : List ℕ) → decompress (compress bytes) ≡ some bytes)
    (IsValue : T → Type 0) (lawful : IsLawful prim IsValue) (w : Width)
    (fits : prim.width ≡ stride_of w) (codec : Codec) where
  abbrev Blocks : List (Block T) → Type 0
  Blocks bs =
      All (IsBlock prim lt compress decompress decompress-compress IsValue lawful w fits codec) bs

  abbrev Cached : List (Block T) → Option (ℕ × List ℕ) → Type 0
  Cached bs cache =
      IsCached prim lt compress decompress decompress-compress IsValue lawful w fits codec
        (layout_bin codec prim.width compress bs) cache

  abbrev readers : List (Block T) → Option (ℕ × List ℕ) → ColumnReader
  readers bs cache =
      reader_of prim lt compress decompress decompress-compress IsValue lawful w fits codec bs cache

  -- A file below 4 GiB has blocks below 4 GiB.
  IsEncoded-Blocks :
      (bs : List (Block T))
      → All (IsEncoded prim lt compress codec) bs
      → length (layout_bin codec prim.width compress bs) < word_mod 4
      → Blocks bs
  unfolding layout_bin
  IsEncoded-Blocks [] h small = tt
  IsEncoded-Blocks (b ∷ bs) (hb, h) small =
      let first = frame codec prim.width compress b.encoded in
      let rest = layout_bin codec prim.width compress bs in
      let sizes = length-append first rest in
      let size = length-frame codec prim.width compress b.encoded in
      (
        record {
          some_granule = hb.some_granule;
          encodes = hb.encodes;
          short = omega (arith, sizes, size, small);
        },
        IsEncoded-Blocks bs h (omega (arith, sizes, small)),
      )

  read_inside :
      (idx : ℕ) (r : ColumnReader) (g : List T) (r' : ColumnReader) (m : Option Mark)
      → get_elem? r.marks idx ≡ m
      → read_at prim decompress idx m r ≡ ok (g, r')
      → idx < length r.marks
  unfolding read_at
  read_inside idx r g r' none found e = cc
  read_inside idx r g r' (some mark) found e = get_elem?-lt r.marks idx found

  cache-Reached :
      (bs : List (Block T)) (r : ColumnReader)
      → Blocks bs
      → All IsValue (flatten (all_granules bs))
      → Reached prim decompress (readers bs none) r
      → (cache : Option (ℕ × List ℕ)) × (r ≡ readers bs cache) × Cached bs cache
  unfolding read_granule
  cache-Reached bs r blocks valid opened = (none, refl, tt)
  cache-Reached bs r blocks valid (reading idx g r0 _ before e) =
      let (cache, is, cached) = cache-Reached bs r0 blocks valid before in
      let e' : read_granule prim decompress idx (readers bs cache) ≡ ok (g, r) = rw is at e in
      let bound = read_inside idx (readers bs cache) g r _ refl e' in
      let (g', found) =
        lt→get_elem? (all_granules bs) idx
          (rw (length-layout_marks codec prim.width compress 0 bs) at bound) in
      let (cache', again, cached') =
        read_granule-reader_of prim lt compress decompress decompress-compress IsValue lawful w fits
          codec bs cache idx g' blocks cached
          (All-granule IsValue (all_granules bs) idx g' valid found) found in
      (cache', same_reader g g' r (readers bs cache') e' again, cached')
    where
      same_reader :
          (g g' : List T) (r r' : ColumnReader) {m : Result ReadError (List T × ColumnReader)}
          → m ≡ ok (g, r)
          → m ≡ ok (g', r')
          → r ≡ r'
      same_reader g g' r r' e e' = cc

  module _ (values : List T) (s : Writer T)
      (written : write_column prim lt compress codec values ≡ ok s)
      (small : length s.bin < word_mod 4) (few : length values * prim.width < word_mod 8) where
    rows-Column :
        (column : Column prim lt compress codec values s)
        → flatten (all_granules column.bs) ≡ values
    rows-Column column = rw column.granules (flatten-granules_of values)

    opened_reader :
        (column : Column prim lt compress codec values s)
        → open_column s.bin s.marks ≡ readers column.bs none
    unfolding open_column
    opened_reader column =
        let bs = column.bs in
        let rows : flatten (all_granules bs) ≡ values = rows-Column column in
        let marks : read_all s.marks ≡ layout_marks codec prim.width compress 0 bs =
          rw column.stored.marks (
            read_all-to_bytes (layout_marks codec prim.width compress 0 bs) (
              layout_marks-IsMark codec prim.width compress 0 bs
                (omega (arith, small, rw column.stored.bin at small)) (rw rows few))) in
        rw (marks, column.stored.bin) refl

    -- An opened column has one granule for each 512 rows.
    pub granule_count-write_column :
        granule_count (open_column s.bin s.marks) ≡ length (granules_of values)
    unfolding granule_count
    granule_count-write_column =
        let column = write_column-Column prim lt compress codec values s written in
        rw (opened_reader column)
          (length-layout_marks codec prim.width compress 0 column.bs ∙ ap length column.granules)

    -- After any reads, the granule at every index is the group of 512 rows at that index, from a
    -- file below 4 GiB and for a codec whose `decompress` undoes `compress`.
    pub read_granule-write_column :
        All IsValue values
        → (r : ColumnReader) → Reached prim decompress (open_column s.bin s.marks) r
        → (idx : ℕ) (g : List T) → get_elem? (granules_of values) idx ≡ some g
        → (r' : ColumnReader) × (read_granule prim decompress idx r ≡ ok (g, r'))
    read_granule-write_column valid r reached idx g found =
        let column = write_column-Column prim lt compress codec values s written in
        let bs = column.bs in
        let blocks = IsEncoded-Blocks bs column.stored.blocks (rw column.stored.bin at small) in
        let rows : flatten (all_granules bs) ≡ values = rows-Column column in
        let (cache, is, cached) =
          cache-Reached bs r blocks (rw rows valid) (rw (opened_reader column) at reached) in
        let (cache', e, _) =
          read_granule-reader_of prim lt compress decompress decompress-compress IsValue lawful w
            fits codec bs cache idx g blocks cached
            (All-granule IsValue (all_granules bs) idx g (rw rows valid) (rw column.granules found))
            (rw column.granules found) in
        (readers bs cache', rw is e)
