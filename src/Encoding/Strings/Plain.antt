-- ===== src/Encoding/Strings/Plain.antt =====
-- tinyolap/src/encoding/string_plain.rs: the strings one behind the other, each behind its length.
use tiny_olap.Base.{
  ℕ, zero, suc, List, [], ◌∷◌, ◌++◌, ◌≤◌, ◌≡◌, sym, ap, ◌∙◌, length, All, append-nil, append_assoc,
  length-append, Result, ok, stuck, ◌>>=◌, Returns, bind-Returns, arith,
}
use tiny_olap.Encoding.Error.{EncodingError}
use tiny_olap.Encoding.Strings.Prefixed.{
  write_string, read_string, read_string-write_string, length-write_string, read_string_takes,
  read_string-Returns, IsStored,
}

unfoldable pub encode : List (List ℕ) → List ℕ → List ℕ
encode [] out = out
encode (s ∷ src) out = encode src (out ++ write_string s)

-- The loop `while i < src.len()`; the list is `src[i..]`.
unfoldable pub decode_loop : ℕ → List ℕ → List (List ℕ) → Result EncodingError (List (List ℕ))
decode_loop fuel [] out = ok out
decode_loop zero (b ∷ bs) out = stuck
decode_loop (suc fuel) (b ∷ bs) out = do
  (s, rest) ← read_string (b ∷ bs)
  decode_loop fuel rest (out ++ (s ∷ []))

-- Each round takes four bytes at least, so `src.len()` rounds are enough.
unfoldable pub decode : List ℕ → List (List ℕ) → Result EncodingError (List (List ℕ))
decode src out = decode_loop (length src) src out

decode_loop-Returns :
    (fuel : ℕ) (src : List ℕ) (out : List (List ℕ))
    → length src ≤ fuel
    → Returns (decode_loop fuel src out)
unfolding decode_loop
decode_loop-Returns fuel [] out h = tt
decode_loop-Returns zero (b ∷ bs) out h = absurd (omega arith)
decode_loop-Returns (suc fuel) (b ∷ bs) out h =
    bind-Returns (read_string (b ∷ bs)) _ (read_string-Returns (b ∷ bs)) (λ (s, rest) e.
      decode_loop-Returns fuel rest (out ++ (s ∷ [])) (omega (arith, read_string_takes _ s rest e)))

-- `decode` comes back on every input.
pub decode-Returns : (src : List ℕ) (out : List (List ℕ)) → Returns (decode src out)
unfolding decode
decode-Returns src out = decode_loop-Returns (length src) src out (omega arith)

abbrev strings : List (List ℕ) → List ℕ
strings [] = []
strings (s ∷ src) = write_string s ++ strings src

encode-strings : (src : List (List ℕ)) (out : List ℕ) → encode src out ≡ out ++ strings src
unfolding encode
encode-strings [] out = sym (append-nil out)
encode-strings (s ∷ src) out =
    encode-strings src (out ++ write_string s) ∙ append_assoc out (write_string s) (strings src)

decode_loop_step :
    (fuel : ℕ) (src : List ℕ) (out : List (List ℕ)) (s rest : List ℕ)
    → read_string src ≡ ok (s, rest)
    → decode_loop (suc fuel) src out ≡ decode_loop fuel rest (out ++ (s ∷ []))
unfolding decode_loop
decode_loop_step fuel [] out s rest e = absurd (omega (arith, read_string_takes [] s rest e))
decode_loop_step fuel (b ∷ bs) out s rest e = rw e

decode_loop-strings :
    (fuel : ℕ) (src out : List (List ℕ))
    → length (strings src) ≤ fuel
    → All IsStored src
    → decode_loop fuel (strings src) out ≡ ok (out ++ src)
decode_loop-strings fuel [] out h all = unfold decode_loop in ap ok (sym (append-nil out))
decode_loop-strings zero (s ∷ src) out h all =
    absurd (omega (arith, length-append (write_string s) (strings src), length-write_string s))
decode_loop-strings (suc fuel) (s ∷ src) out h all =
    decode_loop_step fuel _ out s (strings src) (read_string-write_string s (strings src) all.0)
    ∙ decode_loop-strings fuel src (out ++ (s ∷ []))
        (omega (arith, length-append (write_string s) (strings src), length-write_string s)) all.1
    ∙ ap ok (append_assoc out (s ∷ []) src)

-- Texts shorter than 2 ^ 32 bytes come back as they were, in order.
pub decode-encode :
    (src out : List (List ℕ)) → All IsStored src → decode (encode src []) out ≡ ok (out ++ src)
unfolding decode
decode-encode src out all =
    rw (encode-strings src []) (decode_loop-strings _ src out (omega arith) all)
