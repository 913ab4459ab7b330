-- ===== src/Encoding/Strings/Prefixed.antt =====
-- One string behind its length, `[u32 LE byte_len][utf8 bytes]`, as both string codecs write it.
use tiny_olap.Base.{
  ℕ, List, ◌++◌, ◌+◌, ◌%◌, ◌≤◌, ◌<◌, ◌≡◌, refl, ap, true, ltb, if◌then◌else◌, length, take, drop,
  length-append, length-drop, take_prefix, drop_prefix, leb→not_ltb, append_assoc, Result, ◌>>=◌,
  Returns, ok, err, arith,
}
use tiny_olap.Base.Words.{
  word_mod, to_le_bytes, from_le_bytes, length-to_le_bytes, from_le_bytes-to_le_bytes,
}
use tiny_olap.Base.Utf8.{is_utf8}
use tiny_olap.Encoding.Error.{EncodingError, truncated, invalid_utf8}
use native.Mathlib.Nat.{mod-eq_of_lt}

-- `(n as u32).to_le_bytes()`.
unfoldable pub u32_bytes : ℕ → List ℕ
u32_bytes n = to_le_bytes 4 (n % word_mod 4)

unfoldable pub write_string : List ℕ → List ℕ
write_string s = u32_bytes (length s) ++ s

-- A read gives its value and what is left of the slice.
abbrev pub Read {ℓ} : Type ℓ → Type ℓ
Read A = Result EncodingError (A × List ℕ)

unfoldable pub read_u32 : List ℕ → Read ℕ
read_u32 src =
    if ltb (length src) 4 then err truncated else ok (from_le_bytes (take 4 src), drop 4 src)

take_string : ℕ → List ℕ → Read (List ℕ)
take_string len src =
    if ltb (length src) len
    then err truncated
    else if is_utf8 (take len src)
    then ok (take len src, drop len src)
    else err invalid_utf8

unfoldable pub read_string : List ℕ → Read (List ℕ)
unfolding read_u32 take_string
read_string src = do (len, rest) ← read_u32 src; take_string len rest

read_string_lem : (src : List ℕ) → read_string src ≡ (read_u32 src >>= λ p. take_string p.0 p.1)
unfolding read_string
read_string_lem src = refl

-- A string that a u32 length can stand for.
pub record IsStored (s : List ℕ) : Type 0 where
  pub text : is_utf8 s ≡ true
  pub short : length s < word_mod 4

pub length-u32_bytes : (n : ℕ) → length (u32_bytes n) ≡ 4
unfolding u32_bytes
length-u32_bytes n = length-to_le_bytes 4 (n % word_mod 4)

-- A read gives back what was written, and leaves what follows.
pub read_u32-u32_bytes :
    (n : ℕ) (rest : List ℕ) → n < word_mod 4 → read_u32 (u32_bytes n ++ rest) ≡ ok (n, rest)
unfolding read_u32
read_u32-u32_bytes n rest h =
    rw
      (
        leb→not_ltb (length (u32_bytes n ++ rest)) 4
            (omega (arith, length-append (u32_bytes n) rest, length-u32_bytes n)),
        take_prefix 4 (u32_bytes n) rest (length-u32_bytes n),
        drop_prefix 4 (u32_bytes n) rest (length-u32_bytes n),
      )
      (unfold u32_bytes in
        rw (mod-eq_of_lt h) (ap (λ m. ok (m, rest)) (from_le_bytes-to_le_bytes 4 n h)))

take_string-append :
    (s rest : List ℕ) → is_utf8 s ≡ true → take_string (length s) (s ++ rest) ≡ ok (s, rest)
unfolding take_string
take_string-append s rest text = rw (
  leb→not_ltb (length (s ++ rest)) (length s) (omega (arith, length-append s rest)),
  take_prefix (length s) s rest refl,
  drop_prefix (length s) s rest refl,
  text,
)

pub read_string-write_string :
    (s rest : List ℕ) → IsStored s → read_string (write_string s ++ rest) ≡ ok (s, rest)
unfolding write_string
read_string-write_string s rest h = rw (append_assoc (u32_bytes (length s)) s rest) (
    rw
      (
        read_string_lem (u32_bytes (length s) ++ (s ++ rest)),
        read_u32-u32_bytes (length s) (s ++ rest) h.short,
      )
      (take_string-append s rest h.text))

pub length-write_string : (s : List ℕ) → length (write_string s) ≡ 4 + length s
unfolding write_string
length-write_string s =
    omega (arith, length-append (u32_bytes (length s)) s, length-u32_bytes (length s))

pub read_u32_takes :
    (src : List ℕ) (n : ℕ) (rest : List ℕ)
    → read_u32 src ≡ ok (n, rest)
    → length rest + 4 ≡ length src
unfolding read_u32
read_u32_takes src n rest e = ground (arith, length-drop 4 src)

pub read_u32_value :
    (src : List ℕ) (n : ℕ) (rest : List ℕ)
    → read_u32 src ≡ ok (n, rest)
    → n ≡ from_le_bytes (take 4 src)
unfolding read_u32
read_u32_value src n rest e = ground arith

-- A successful read takes at least the four bytes of the length.
pub read_string_takes :
    (src s rest : List ℕ) → read_string src ≡ ok (s, rest) → length rest + 4 ≤ length src
unfolding read_string
read_string_takes src s rest e =
    ground (arith, length-drop 4 src, length-drop (from_le_bytes (take 4 src)) (drop 4 src))

pub read_u32-Returns : (src : List ℕ) → Returns (read_u32 src)
unfolding read_u32
read_u32-Returns src = ground arith

pub read_string-Returns : (src : List ℕ) → Returns (read_string src)
unfolding read_string
read_string-Returns src = ground arith
