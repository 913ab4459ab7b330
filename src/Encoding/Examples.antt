-- ===== src/Encoding/Examples.antt =====
-- Concrete runs of the codecs, and their theorems at concrete inputs.
use tiny_olap.Base.{
  ℕ, List, [], ◌∷◌, ◌≡◌, ◌⊎◌, Bool, true, take, ltb, lt→ltb, refl, ◌>>=◌, ok, err, Returns,
  chunks_exact, bytes_eq, arith,
}
use tiny_olap.Base.Words.{to_le_bytes, from_le_bytes, wrapping_sub}
use tiny_olap.Base.Utf8.{is_utf8}
use tiny_olap.Encoding.Error.{bad_header}
use tiny_olap.Encoding.Delta.RoundTrip.{two}
use tiny_olap.Encoding.Delta
use tiny_olap.Encoding.Rle
use tiny_olap.Encoding.Strings.Prefixed.{IsStored}
use tiny_olap.Encoding.Codec
use tiny_olap.Encoding.Codec.{Codec, StringCodec, delta, rle, dictionary}

-- Three u16 values, 10, 15 and 9.
abbrev u16_values : List ℕ
u16_values = 10 ∷ 0 ∷ 15 ∷ 0 ∷ 9 ∷ 0 ∷ []

decode-encode_example :
    (Codec.encode delta u16_values 2 [] >>= λ e. Codec.decode delta e 2 []) ≡ ok u16_values
decode-encode_example = Codec.decode-encode delta two 3 u16_values [] refl (omega arith)

-- An allocator with room for fewer than a million strings.
abbrev up_to_a_million : ℕ → Bool
up_to_a_million n = ltb n 1000000

-- "ok", "no" and "ok" again.
abbrev texts : List (List ℕ)
texts = (111 ∷ 107 ∷ []) ∷ (110 ∷ 111 ∷ []) ∷ (111 ∷ 107 ∷ []) ∷ []

ok-IsStored : IsStored (111 ∷ 107 ∷ [])
unfolding is_utf8
ok-IsStored = record { text = refl; short = omega arith }

no-IsStored : IsStored (110 ∷ 111 ∷ [])
unfolding is_utf8
no-IsStored = record { text = refl; short = omega arith }

decode_strings-encode_strings_example :
    (Codec.encode_strings dictionary texts [] >>= λ e.
    Codec.decode_strings up_to_a_million dictionary e [])
    ≡ ok texts
decode_strings-encode_strings_example =
    Codec.decode_strings-encode_strings up_to_a_million dictionary texts []
      (λ _ n few. lt→ltb n 1000000 (omega arith)) (omega arith)
      (ok-IsStored, (no-IsStored, (ok-IsStored, tt)))

-- A run that is cut short.
decode-Returns_example : Returns (Codec.decode rle (2 ∷ 0 ∷ 7 ∷ 1 ∷ []) 1 [])
decode-Returns_example =
    Codec.decode-Returns rle (2 ∷ 0 ∷ 7 ∷ 1 ∷ []) 1 [] (omega arith) (omega arith)

-- The first four bytes stand for 2313.
room : up_to_a_million (from_le_bytes (take 4 (9 ∷ 9 ∷ 0 ∷ 0 ∷ 1 ∷ []))) ≡ true
unfolding from_le_bytes
room = refl

decode_strings-Returns_example :
    Returns (Codec.decode_strings up_to_a_million dictionary (9 ∷ 9 ∷ 0 ∷ 0 ∷ 1 ∷ []) [])
decode_strings-Returns_example =
    Codec.decode_strings-Returns up_to_a_million dictionary (9 ∷ 9 ∷ 0 ∷ 0 ∷ 1 ∷ []) [] (λ _. room)

from_tag_cases_example :
    ((c : Codec) × (3 ≡ Codec.tag c) × (Codec.from_tag 3 ≡ ok c))
    ⊎ (((c : Codec) → 3 ≡ Codec.tag c → ⊥) × (Codec.from_tag 3 ≡ err bad_header))
from_tag_cases_example = Codec.from_tag_cases 3

rle_run : Rle.encode (7 ∷ 7 ∷ 7 ∷ 1 ∷ []) 1 [] ≡ ok (3 ∷ 0 ∷ 7 ∷ 1 ∷ 0 ∷ 1 ∷ [])
unfolding Rle.encode Rle.encode_loop chunks_exact to_le_bytes bytes_eq
rle_run = refl

delta_run : Codec.encode delta u16_values 2 [] ≡ ok (10 ∷ 0 ∷ 5 ∷ 0 ∷ 250 ∷ 255 ∷ [])
unfolding Codec.encode Delta.encode Delta.encode_stride Delta.encode_words chunks_exact to_le_bytes
    from_le_bytes wrapping_sub
delta_run = refl
