-- ===== src/Encoding/Rle.antt =====
-- tinyolap/src/encoding/rle.rs: runs of equal values as pairs of a u16 count and the value.
pub mod RoundTrip
use tiny_olap.Base.{
  ℕ, zero, suc, List, [], ◌∷◌, ◌++◌, ◌+◌, ◌==◌, ◌&&◌, ltb, if◌then◌else◌, length, take, drop,
  is_empty, chunks_exact, bytes_eq, ok, err, panic, stuck,
}
use tiny_olap.Base.Words.{word_mod, to_le_bytes, from_le_bytes}
use tiny_olap.Encoding.Error.{Output, truncated}

-- `u16::MAX`.
abbrev pub max_count : ℕ
max_count = 65535

-- The loop over the chunks behind the first value, and the flush of the last run.
unfoldable pub encode_loop : List ℕ → List ℕ → ℕ → List (List ℕ) → List ℕ
encode_loop out prev count [] = out ++ (to_le_bytes 2 count ++ prev)
encode_loop out prev count (chunk ∷ rest) =
    let same = bytes_eq chunk prev && ltb count max_count in
    encode_loop (if same then out else out ++ (to_le_bytes 2 count ++ prev))
      (if same then prev else chunk) (if same then count + 1 else 1) rest

-- `src[..stride]` panics on a shorter slice, and `chunks_exact(0)` always.
unfoldable pub encode : List ℕ → ℕ → List ℕ → Output
encode src stride out =
    if is_empty src
    then ok out
    else if ltb (length src) stride
    then panic
    else if stride == 0
    then panic
    else ok (encode_loop out (take stride src) 1 (chunks_exact stride (drop stride src)))

-- `for _ in 0..count { out.extend_from_slice(value) }`.
unfoldable pub extend_times : ℕ → List ℕ → List ℕ → List ℕ
extend_times zero value out = out
extend_times (suc n) value out = extend_times n value (out ++ value)

-- The loop `while i < src.len()`; the list is `src[i..]`.
unfoldable pub decode_loop : ℕ → ℕ → List ℕ → List ℕ → Output
decode_loop fuel stride [] out = ok out
decode_loop zero stride (b ∷ bs) out = stuck
decode_loop (suc fuel) stride (b ∷ bs) out =
    let src = b ∷ bs in
    let value = take stride (drop 2 src) in
    let rest =
      decode_loop fuel stride (drop (2 + stride) src)
        (extend_times (from_le_bytes (take 2 src)) value out) in
    if ltb (length src) (2 + stride) then err truncated else rest

-- `2 + stride` is an addition on usize, which panics past 2 ^ 64 where overflow is checked. Each
-- round takes two bytes at least, so `src.len()` rounds are enough.
unfoldable pub decode : List ℕ → ℕ → List ℕ → Output
decode src stride out =
    if ltb (2 + stride) (word_mod 8) then decode_loop (length src) stride src out else panic
