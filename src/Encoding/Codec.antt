-- ===== src/Encoding/Codec.antt =====
-- tinyolap/src/encoding/mod.rs: `Codec` and `StringCodec`, which choose a codec, and their tags.
use tiny_olap.Base.{
  ℕ, zero, suc, List, [], take, Bool, true, ◌+◌, ◌≤◌, ◌++◌, ◌*◌, ◌<◌, ◌==◌, ◌≡◌, ◌⊎◌, inl, inr,
  refl, if◌then◌else◌, length, All, Result, ◌>>=◌, ok, err, Returns, arith,
}
use tiny_olap.Base.Words.{IsByte, word_mod, from_le_bytes}
use tiny_olap.Encoding.Error.{EncodingError, Output, bad_header}
use tiny_olap.Encoding.Plain
use tiny_olap.Encoding.Delta
use tiny_olap.Encoding.Delta.RoundTrip.{Width, one, two, four, eight, stride_of}
use tiny_olap.Encoding.Delta.RoundTrip as DeltaRoundTrip
use tiny_olap.Encoding.Rle
use tiny_olap.Encoding.Rle.RoundTrip as RleRoundTrip
use tiny_olap.Encoding.Strings.Prefixed.{IsStored}
use tiny_olap.Encoding.Strings.Plain as StringPlain
use tiny_olap.Encoding.Strings.Dictionary as StringDictionary
use tiny_olap.Encoding.Strings.Dictionary.RoundTrip as DictionaryRoundTrip

pub data Codec : Type 0 where
  plain delta rle : Codec

unfoldable pub encode : Codec → List ℕ → ℕ → List ℕ → Output
encode plain src stride out = Plain.encode src stride out
encode delta src stride out = Delta.encode src stride out
encode rle src stride out = Rle.encode src stride out

unfoldable pub decode : Codec → List ℕ → ℕ → List ℕ → Output
decode plain src stride out = Plain.decode src stride out
decode delta src stride out = Delta.decode src stride out
decode rle src stride out = Rle.decode src stride out

unfoldable pub tag : Codec → ℕ
tag plain = 0
tag delta = 1
tag rle = 2

unfoldable pub from_tag : ℕ → Result EncodingError Codec
from_tag t =
    if t == 0
    then ok plain
    else if t == 1
    then ok delta
    else if t == 2
    then ok rle
    else err bad_header

pub data StringCodec : Type 0 where
  plain dictionary : StringCodec

unfoldable pub encode_strings : StringCodec → List (List ℕ) → List ℕ → Output
encode_strings plain src out = ok (StringPlain.encode src out)
encode_strings dictionary src out = StringDictionary.encode src out

unfoldable pub decode_strings :
    (ℕ → Bool) → StringCodec → List ℕ → List (List ℕ) → Result EncodingError (List (List ℕ))
decode_strings grants plain src out = StringPlain.decode src out
decode_strings grants dictionary src out = StringDictionary.decode grants src out

unfoldable pub string_tag : StringCodec → ℕ
string_tag plain = 0
string_tag dictionary = 1

unfoldable pub from_string_tag : ℕ → Result EncodingError StringCodec
from_string_tag t = if t == 0 then ok plain else if t == 1 then ok dictionary else err bad_header

plain_round :
    (s : Width) (n : ℕ) (src out : List ℕ)
    → length src ≡ n * stride_of s
    → Plain.decode src (stride_of s) out ≡ ok (out ++ src)
unfolding Plain.decode
plain_round one n src out whole = ground arith
plain_round two n src out whole = ground arith
plain_round four n src out whole = ground arith
plain_round eight n src out whole = ground arith

pos_of : (s : Width) → 0 < stride_of s
pos_of one = omega arith
pos_of two = omega arith
pos_of four = omega arith
pos_of eight = omega arith

fits_of : (s : Width) → 2 + stride_of s < word_mod 8
fits_of one = omega arith
fits_of two = omega arith
fits_of four = omega arith
fits_of eight = omega arith

-- Each codec gives back the bytes of whole values of 1, 2, 4 or 8 bytes, behind any output.
pub decode-encode :
    (c : Codec) (s : Width) (n : ℕ) (src out : List ℕ)
    → length src ≡ n * stride_of s
    → All IsByte src
    → (encode c src (stride_of s) [] >>= λ e. decode c e (stride_of s) out) ≡ ok (out ++ src)
unfolding encode decode
decode-encode plain s n src out whole bytes = unfold Plain.encode in plain_round s n src out whole
decode-encode delta s n src out whole bytes = DeltaRoundTrip.decode-encode s n src out whole bytes
decode-encode rle s n src out whole bytes =
    RleRoundTrip.decode-encode (stride_of s) n src out (pos_of s) (fits_of s) whole

-- Both string codecs give back a column of fewer than 2 ^ 32 texts, each shorter than 2 ^ 32 bytes,
-- when the allocator, for a dictionary, has room for as many strings.
pub decode_strings-encode_strings :
    (grants : ℕ → Bool) (c : StringCodec) (src out : List (List ℕ))
    → (c ≡ dictionary → (n : ℕ) → n ≤ length src → grants n ≡ true)
    → length src < word_mod 4
    → All IsStored src
    → (encode_strings c src [] >>= λ e. decode_strings grants c e out) ≡ ok (out ++ src)
unfolding encode_strings decode_strings
decode_strings-encode_strings grants plain src out room few all =
    StringPlain.decode-encode src out all
decode_strings-encode_strings grants dictionary src out room few all =
    DictionaryRoundTrip.decode-encode grants src out (room refl) few all

-- A byte is read as a codec exactly when it is the codec's tag; every other byte is `BadHeader`.
pub from_tag_cases :
    (t : ℕ)
    → ((c : Codec) × (t ≡ tag c) × (from_tag t ≡ ok c))
      ⊎ (((c : Codec) → t ≡ tag c → ⊥) × (from_tag t ≡ err bad_header))
unfolding tag from_tag
from_tag_cases zero = inl (plain, refl, refl)
from_tag_cases (suc zero) = inl (delta, refl, refl)
from_tag_cases (suc (suc zero)) = inl (rle, refl, refl)
from_tag_cases (suc (suc (suc t))) = inr (not_tag, ground arith)
  where
    not_tag : (c : Codec) → suc (suc (suc t)) ≡ tag c → ⊥
    not_tag plain e = omega arith
    not_tag delta e = omega arith
    not_tag rle e = omega arith

pub from_string_tag_cases :
    (t : ℕ)
    → ((c : StringCodec) × (t ≡ string_tag c) × (from_string_tag t ≡ ok c))
      ⊎ (((c : StringCodec) → t ≡ string_tag c → ⊥) × (from_string_tag t ≡ err bad_header))
unfolding string_tag from_string_tag
from_string_tag_cases zero = inl (plain, refl, refl)
from_string_tag_cases (suc zero) = inl (dictionary, refl, refl)
from_string_tag_cases (suc (suc t)) = inr (not_tag, ground arith)
  where
    not_tag : (c : StringCodec) → suc (suc t) ≡ string_tag c → ⊥
    not_tag plain e = omega arith
    not_tag dictionary e = omega arith

-- Decoding comes back on every input, at every positive stride to which 2 can be added in 64 bits:
-- corrupt bytes never panic.
pub decode-Returns :
    (c : Codec) (src : List ℕ) (stride : ℕ) (out : List ℕ)
    → 0 < stride
    → 2 + stride < word_mod 8
    → Returns (decode c src stride out)
unfolding decode
decode-Returns plain src stride out pos fits = unfold Plain.decode in ground arith
decode-Returns delta src stride out pos fits = DeltaRoundTrip.decode-Returns src stride out pos
decode-Returns rle src stride out pos fits = RleRoundTrip.decode-Returns src stride out fits

-- Decoding arbitrary bytes as a string column comes back with a value or an error, when the
-- allocator, for a dictionary, has room for as many strings as the first four bytes ask for.
pub decode_strings-Returns :
    (grants : ℕ → Bool) (c : StringCodec) (src : List ℕ) (out : List (List ℕ))
    → (c ≡ dictionary → grants (from_le_bytes (take 4 src)) ≡ true)
    → Returns (decode_strings grants c src out)
unfolding decode_strings
decode_strings-Returns grants plain src out room = StringPlain.decode-Returns src out
decode_strings-Returns grants dictionary src out room =
    DictionaryRoundTrip.decode-Returns grants src out (room refl)
