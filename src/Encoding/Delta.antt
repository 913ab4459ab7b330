-- ===== src/Encoding/Delta.antt =====
-- tinyolap/src/encoding/delta.rs: the first value as it is, then the differences of neighbours,
-- wrapping at the width of a value.
mod Words
pub mod RoundTrip
use tiny_olap.Base.{
  ℕ, List, [], ◌∷◌, ◌++◌, ◌%◌, ◌==◌, Bool, ltb, if◌then◌else◌, not, length, take, drop, is_empty,
  chunks_exact, ok, err, panic,
}
use tiny_olap.Base.Words.{to_le_bytes, from_le_bytes, wrapping_add, wrapping_sub}
use tiny_olap.Encoding.Error.{Output, truncated, unsupported_stride}

-- The loop of stride 1, over the bytes behind the first.
unfoldable pub encode_bytes : List ℕ → ℕ → List ℕ → List ℕ
encode_bytes out prev [] = out
encode_bytes out prev (curr ∷ rest) =
    encode_bytes (out ++ (wrapping_sub 1 curr prev ∷ [])) curr rest

-- The loop of the strides 2, 4 and 8, over the chunks behind the first value.
unfoldable pub encode_words : ℕ → List ℕ → ℕ → List (List ℕ) → List ℕ
encode_words w out prev [] = out
encode_words w out prev (chunk ∷ rest) =
    let curr = from_le_bytes chunk in
    encode_words w (out ++ to_le_bytes w (wrapping_sub w curr prev)) curr rest

-- One arm of the match on the stride; `src[..w]` panics on a shorter slice.
unfoldable pub encode_stride : ℕ → List ℕ → List ℕ → Output
encode_stride w src out =
    if ltb (length src) w
    then panic
    else ok (
        encode_words w (out ++ take w src) (from_le_bytes (take w src))
          (chunks_exact w (drop w src)))

unfoldable pub encode_first : List ℕ → List ℕ → Output
encode_first [] out = panic
encode_first (b ∷ bs) out = ok (encode_bytes (out ++ (b ∷ [])) b bs)

unfoldable pub encode : List ℕ → ℕ → List ℕ → Output
encode src stride out =
    if is_empty src
    then ok out
    else if stride == 1
    then encode_first src out
    else if stride == 2
    then encode_stride 2 src out
    else if stride == 4
    then encode_stride 4 src out
    else if stride == 8
    then encode_stride 8 src out
    else ok (out ++ src)

unfoldable pub decode_bytes : List ℕ → ℕ → List ℕ → List ℕ
decode_bytes out prev [] = out
decode_bytes out prev (delta ∷ rest) =
    let curr = wrapping_add 1 prev delta in decode_bytes (out ++ (curr ∷ [])) curr rest

unfoldable pub decode_words : ℕ → List ℕ → ℕ → List (List ℕ) → List ℕ
decode_words w out prev [] = out
decode_words w out prev (chunk ∷ rest) =
    let curr = wrapping_add w prev (from_le_bytes chunk) in
    decode_words w (out ++ to_le_bytes w curr) curr rest

unfoldable pub decode_stride : ℕ → List ℕ → List ℕ → Output
decode_stride w src out =
    if ltb (length src) w
    then panic
    else ok (
        decode_words w (out ++ take w src) (from_le_bytes (take w src))
          (chunks_exact w (drop w src)))

unfoldable pub decode_first : List ℕ → List ℕ → Output
decode_first [] out = panic
decode_first (b ∷ bs) out = ok (decode_bytes (out ++ (b ∷ [])) b bs)

-- `src.len() % stride` panics at stride 0.
unfoldable pub decode : List ℕ → ℕ → List ℕ → Output
decode src stride out =
    if is_empty src
    then ok out
    else if stride == 0
    then panic
    else if not (length src % stride == 0)
    then err truncated
    else if stride == 1
    then decode_first src out
    else if stride == 2
    then decode_stride 2 src out
    else if stride == 4
    then decode_stride 4 src out
    else if stride == 8
    then decode_stride 8 src out
    else err (unsupported_stride stride)
