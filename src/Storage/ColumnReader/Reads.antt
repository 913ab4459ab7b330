-- ===== src/Storage/ColumnReader/Reads.antt =====
-- A granule of a laid out column is read with any block in the cache.
use tiny_olap.Base.{
  ℕ, suc, ◌+◌, ◌-◌, ◌*◌, ◌%◌, ◌<◌, ◌≤◌, zero, List, [], ◌∷◌, ◌++◌, ◌≡◌, refl, ap, sym, ◌∙◌, inl,
  inr, Bool, Option, none, some, ◌==◌, ==_iff, leb→not_ltb, length, length-append, drop,
  take_prefix, drop_prefix, get_elem?, flatten, map, All, append_assoc, Bool-cases, ok, arith,
}
use tiny_olap.Base.Words.{word_mod, to_le_bytes, length-to_le_bytes, from_le_bytes-to_le_bytes}
use tiny_olap.Encoding.Primitive.{Primitive, IsLawful}
use tiny_olap.Encoding.Delta.RoundTrip.{Width, stride_of}
use tiny_olap.Encoding.Codec as Codecs
use tiny_olap.Encoding.Codec.{Codec, plain, delta, rle}
use tiny_olap.Storage.ColumnWriter.{raw_bytes}
use tiny_olap.Storage.ColumnWriter.Bytes.{
  length-raw_bytes, decodes, raw_bytes-append, raw_bytes-chunks,
}
use tiny_olap.Storage.ZoneMapFile.RoundTrip.{read_exact-append, one_byte}
use tiny_olap.Storage.ColumnReader.{
  ColumnReader, invalid, decompressed, slice, granule_end, decode_all, load_block, block_at,
  read_at, read_granule,
}
use tiny_olap.Storage.ColumnReader.Layout.{Block, all_granules, frame, layout_bin, layout_marks}
use tiny_olap.Storage.ColumnReader.Blocks.{locate}
use native.Mathlib.Nat.{mod-eq_of_lt}

from_tag-tag : (codec : Codec) → Codecs.from_tag (Codecs.tag codec) ≡ ok codec
unfolding Codecs.from_tag Codecs.tag
from_tag-tag plain = refl
from_tag-tag delta = refl
from_tag-tag rle = refl

-- The middle of three parts.
slice-middle :
    (xs ys zs : List ℕ) (start end : ℕ)
    → start ≡ length xs
    → end ≡ length xs + length ys
    → slice start end (xs ++ (ys ++ zs)) ≡ ok ys
unfolding slice
slice-middle xs ys zs start end hs he =
    let ordered : start ≤ end = omega arith in
    let size : end - start ≡ length ys = omega arith in
    let inside : end ≤ length (xs ++ (ys ++ zs)) =
      omega (arith, length-append xs (ys ++ zs), length-append ys zs) in
    rw
      (
        leb→not_ltb end start ordered,
        leb→not_ltb (length (xs ++ (ys ++ zs))) end inside,
        drop_prefix start xs (ys ++ zs) (sym hs),
        size,
        take_prefix (length ys) ys zs refl,
      )
      refl

first_element : {A : Type 0} (P : A → Type 0) (x : A) {y : A} → P x → some x ≡ some y → P y
first_element P x {y} hx e = let same : x ≡ y = cc in rw (← same) hx

All-get_elem? :
    {A : Type 0} (P : A → Type 0) (xs : List A) (i : ℕ) {x : A}
    → All P xs
    → get_elem? xs i ≡ some x
    → P x
All-get_elem? P [] i h e = cc
All-get_elem? P (x ∷ xs) zero (hx, h) e = first_element P x hx e
All-get_elem? P (x ∷ xs) (suc i) (hx, h) e = All-get_elem? P xs i h e

flatten-parts :
    {A : Type 0} (xss : List (List A)) (ys : List A) (zss : List (List A))
    → flatten (xss ++ (ys ∷ zss)) ≡ flatten xss ++ (ys ++ flatten zss)
flatten-parts [] ys zss = refl
flatten-parts (xs ∷ xss) ys zss =
    rw (flatten-parts xss ys zss, append_assoc xs (flatten xss) (ys ++ flatten zss)) refl

module _ {T : Type 0} (prim : Primitive T) (lt : T → T → Bool) (compress : List ℕ → List ℕ)
    (decompress : List ℕ → Option (List ℕ))
    (decompress-compress : (bytes : List ℕ) → decompress (compress bytes) ≡ some bytes)
    (IsValue : T → Type 0) (lawful : IsLawful prim IsValue) (w : Width)
    (fits : prim.width ≡ stride_of w) (codec : Codec) where
  abbrev raw : List T → List ℕ
  raw vs = raw_bytes prim lt compress vs

  -- A block that the writer makes: granules, and the bytes of the codec for their values, whose
  -- compressed length is a word of 32 bits.
  pub record IsBlock (b : Block T) : Type 0 where
    pub some_granule : 0 < length b.granules
    pub encodes :
        Codecs.encode codec (raw_bytes prim lt compress (flatten b.granules)) prim.width []
        ≡ ok b.encoded
    pub short : length (compress b.encoded) < word_mod 4

  load_block-frame :
      (vs : List T) (encoded rest : List ℕ)
      → Codecs.encode codec (raw_bytes prim lt compress vs) prim.width [] ≡ ok encoded
      → length (compress encoded) < word_mod 4
      → load_block prim decompress (frame codec prim.width compress encoded ++ rest)
        ≡ ok (raw_bytes prim lt compress vs)
  unfolding load_block invalid decompressed
  load_block-frame vs encoded rest e short =
      let compressed = compress encoded in
      let len = to_le_bytes 4 (length compressed) in
      let in_range : length compressed % word_mod 4 ≡ length compressed = mod-eq_of_lt short in
      rw
        (
          in_range,
          append_assoc len compressed rest,
          read_exact-append 1 (Codecs.tag codec ∷ []) (len ++ (compressed ++ rest)) refl,
          one_byte (Codecs.tag codec),
          from_tag-tag codec,
          read_exact-append 4 len (compressed ++ rest) (length-to_le_bytes 4 (length compressed)),
          from_le_bytes-to_le_bytes 4 (length compressed) short,
          read_exact-append (length compressed) compressed rest refl,
          decompress-compress encoded,
          decodes prim lt compress IsValue lawful w fits codec vs encoded e,
        )
        refl

  decode_all-encode_le :
      (vs : List T)
      → All IsValue vs
      → decode_all prim decompress (map (λ v. prim.encode_le v) vs) ≡ ok vs
  unfolding decode_all
  decode_all-encode_le [] valid = refl
  decode_all-encode_le (v ∷ vs) (hv, valid) =
      rw (decode_all-encode_le vs valid, lawful.decode_le-encode_le v hv) refl

  -- The cache is empty, or holds what the file has at its offset.
  abbrev pub IsCached : List ℕ → Option (ℕ × List ℕ) → Type 0
  IsCached bin none = Unit
  IsCached bin (some (offset, block)) = load_block prim decompress (drop offset bin) ≡ ok block

  block_at-IsCached :
      (offset : ℕ) (bin block : List ℕ) (cache : Option (ℕ × List ℕ))
      → IsCached bin cache
      → load_block prim decompress (drop offset bin) ≡ ok block
      → block_at prim decompress offset bin cache ≡ ok block
  unfolding block_at
  block_at-IsCached offset bin block none cached loaded = loaded
  block_at-IsCached offset bin block (some (off, held)) cached loaded =
      elim (Bool-cases (off == offset)) [
        | inl hit ↦
            let same : off ≡ offset = (==_iff off offset).0 hit in
            rw hit (sym cached ∙ rw same loaded)
        | inr miss ↦ rw miss loaded
      ]

  abbrev pub reader_of : List (Block T) → Option (ℕ × List ℕ) → ColumnReader
  reader_of bs cache = record {
    bin = layout_bin codec prim.width compress bs;
    marks = layout_marks codec prim.width compress 0 bs;
    cache = cache;
  }

  some_granule-All : (bs : List (Block T)) → All IsBlock bs → All (λ b. 0 < length b.granules) bs
  some_granule-All [] h = tt
  some_granule-All (b ∷ bs) (hb, h) = (hb.some_granule, some_granule-All bs h)

  at_width : (vs : List T) → length (raw vs) ≡ length vs * prim.width
  at_width vs =
      length-raw_bytes prim lt compress IsValue lawful w fits vs
      ∙ ap (λ k. length vs * k) (sym fits)

  granule_bytes :
      (granules before : List (List T)) (g : List T) (after : List (List T)) (end : ℕ)
      → granules ≡ before ++ (g ∷ after)
      → end ≡ length (flatten before) * prim.width + length g * prim.width
      → slice
          (length (flatten before) * prim.width)
          end
          (raw_bytes prim lt compress (flatten granules))
        ≡ ok (raw_bytes prim lt compress g)
  granule_bytes granules before g after end parts he =
      rw
        (
          parts,
          flatten-parts before g after,
          raw_bytes-append prim lt compress IsValue lawful w fits (flatten before)
              (g ++ flatten after),
          raw_bytes-append prim lt compress IsValue lawful w fits g (flatten after),
        )
        (slice-middle (raw (flatten before)) (raw g) (raw (flatten after))
          (length (flatten before) * prim.width) end (sym (at_width (flatten before)))
          (he ∙ both (sym (at_width (flatten before))) (sym (at_width g))))
    where
      both : {a b c d : ℕ} → a ≡ c → b ≡ d → a + b ≡ c + d
      both e e' = cc

  -- Reading a granule gives its values, with the block of the granule in the cache.
  pub read_granule-reader_of :
      (bs : List (Block T)) (cache : Option (ℕ × List ℕ)) (idx : ℕ) (g : List T)
      → All IsBlock bs
      → IsCached (layout_bin codec prim.width compress bs) cache
      → All IsValue g
      → get_elem? (all_granules bs) idx ≡ some g
      → (cache' : Option (ℕ × List ℕ)) × (read_granule prim decompress idx (reader_of bs cache)
          ≡ ok (g, reader_of bs cache'))
        × IsCached (layout_bin codec prim.width compress bs) cache'
  unfolding read_granule read_at
  read_granule-reader_of bs cache idx g blocks cached valid h =
      let at = locate codec prim.width compress 0 bs idx g (some_granule-All bs blocks) h in
      let b = All-get_elem? IsBlock bs at.index blocks at.member in
      let bin = layout_bin codec prim.width compress bs in
      let block = raw (flatten at.block.granules) in
      let loaded : load_block prim decompress (drop (0 + at.base) bin) ≡ ok block =
        at_base at.base bin (at.framed) (
          load_block-frame (flatten at.block.granules) at.block.encoded at.rest b.encodes
            b.short) in
      (
        some (0 + at.base, block),
        rw
            (
              at.found,
              block_at-IsCached (0 + at.base) bin block cache cached loaded,
              at_width (flatten at.block.granules),
              granule_bytes at.block.granules at.before g at.after
                  (granule_end (get_elem? (layout_marks codec prim.width compress 0 bs) (suc idx))
                    (0 + at.base) (length (flatten at.block.granules) * prim.width))
                  at.parts at.ends,
              raw_bytes-chunks prim lt compress IsValue lawful w fits g,
              decode_all-encode_le g valid,
            )
            refl,
        loaded,
      )
    where
      at_base :
          (base : ℕ) (bin : List ℕ) {framed : List ℕ} {block : List ℕ}
          → drop base bin ≡ framed
          → load_block prim decompress framed ≡ ok block
          → load_block prim decompress (drop (0 + base) bin) ≡ ok block
      at_base base bin e loaded = let same : 0 + base ≡ base = omega arith in rw (same, e) loaded
