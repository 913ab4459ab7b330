-- ===== src/Storage/Mark/RoundTrip.antt =====
-- Marks are read back as they were written.
use tiny_olap.Base.{
  List, [], ◌∷◌, ◌++◌, map, flatten, ◌≡◌, refl, ◌<◌, All, take_prefix, drop_prefix, length,
  chunks_exact-flatten, arith,
}
use tiny_olap.Base.Words.{word_mod, to_le_bytes, length-to_le_bytes, from_le_bytes-to_le_bytes}
use tiny_olap.Storage.Mark.{Mark, to_bytes, from_bytes, read_all}

-- Both offsets are words of 64 bits.
pub record IsMark (m : Mark) : Type 0 where
  pub block_fits : m.block_offset < word_mod 8
  pub offset_fits : m.decompressed_offset < word_mod 8

from_bytes-to_bytes : (m : Mark) → IsMark m → from_bytes (to_bytes m) ≡ m
unfolding from_bytes to_bytes
from_bytes-to_bytes m h =
    let first = to_le_bytes 8 m.block_offset in
    let second = to_le_bytes 8 m.decompressed_offset in
    let last = to_le_bytes 8 0 in
    rw
      (
        take_prefix 8 first (second ++ last) (length-to_le_bytes 8 m.block_offset),
        drop_prefix 8 first (second ++ last) (length-to_le_bytes 8 m.block_offset),
        take_prefix 8 second last (length-to_le_bytes 8 m.decompressed_offset),
        from_le_bytes-to_le_bytes 8 m.block_offset h.block_fits,
        from_le_bytes-to_le_bytes 8 m.decompressed_offset h.offset_fits,
      )
      refl

length-to_bytes : (m : Mark) → length (to_bytes m) ≡ 24
unfolding to_bytes to_le_bytes
length-to_bytes m = refl

to_bytes-lengths : (ms : List Mark) → All (λ c. length c ≡ 24) (map to_bytes ms)
to_bytes-lengths [] = tt
to_bytes-lengths (m ∷ ms) = (length-to_bytes m, to_bytes-lengths ms)

map-from_bytes : (ms : List Mark) → All IsMark ms → map from_bytes (map to_bytes ms) ≡ ms
map-from_bytes [] h = refl
map-from_bytes (m ∷ ms) (hm, h) = rw (from_bytes-to_bytes m hm, map-from_bytes ms h) refl

-- The file of any marks with offsets of 64 bits is read back as those marks.
pub read_all-to_bytes : (ms : List Mark) → All IsMark ms → read_all (flatten (map to_bytes ms)) ≡ ms
unfolding read_all
read_all-to_bytes ms h =
    rw (chunks_exact-flatten 24 (map to_bytes ms) (omega arith) (to_bytes-lengths ms))
      (map-from_bytes ms h)
