-- ===== src/Encoding/Delta/Words.antt =====
-- What the loops of delta.rs write, chunk by chunk.
use tiny_olap.Base.{
  ℕ, suc, List, [], ◌∷◌, ◌++◌, ◌<◌, ◌≡◌, refl, sym, ap, ◌∙◌, length, flatten, All, append-nil,
  append_assoc,
}
use tiny_olap.Base.Words.{
  IsByte, word_mod, to_le_bytes, from_le_bytes, wrapping_add, wrapping_sub, length-to_le_bytes,
  from_le_bytes-lt, from_le_bytes-to_le_bytes, to_le_bytes-from_le_bytes, wrapping_sub-lt,
  wrapping_add-wrapping_sub,
}
use tiny_olap.Encoding.Delta.{encode_bytes, encode_words, decode_bytes, decode_words}

-- A value of `w` bytes.
abbrev pub IsWord : ℕ → List ℕ → Type 0
IsWord w c = (length c ≡ w) × All IsByte c

pub IsWord-lt : (w : ℕ) (c : List ℕ) → IsWord w c → from_le_bytes c < word_mod w
IsWord-lt w c h = rw h.0 at (from_le_bytes-lt c h.1)

-- The differences of neighbouring values.
pub deltas : ℕ → ℕ → List (List ℕ) → List (List ℕ)
deltas w prev [] = []
deltas w prev (c ∷ cs) =
    to_le_bytes w (wrapping_sub w (from_le_bytes c) prev) ∷ deltas w (from_le_bytes c) cs

pub encode_words-deltas :
    (w : ℕ) (out : List ℕ) (prev : ℕ) (cs : List (List ℕ))
    → encode_words w out prev cs ≡ out ++ flatten (deltas w prev cs)
unfolding encode_words deltas
encode_words-deltas w out prev [] = sym (append-nil out)
encode_words-deltas w out prev (c ∷ cs) =
    encode_words-deltas w (out ++ to_le_bytes w (wrapping_sub w (from_le_bytes c) prev))
      (from_le_bytes c) cs
    ∙ append_assoc out _ _

pub length-deltas : (w prev : ℕ) (cs : List (List ℕ)) → length (deltas w prev cs) ≡ length cs
unfolding deltas
length-deltas w prev [] = refl
length-deltas w prev (c ∷ cs) = ap suc (length-deltas w (from_le_bytes c) cs)

pub deltas-All : (w prev : ℕ) (cs : List (List ℕ)) → All (λ c. length c ≡ w) (deltas w prev cs)
unfolding deltas
deltas-All w prev [] = tt
deltas-All w prev (c ∷ cs) = (length-to_le_bytes w _, deltas-All w (from_le_bytes c) cs)

next_word :
    (w prev : ℕ) (c : List ℕ)
    → prev < word_mod w
    → IsWord w c
    → wrapping_add w prev (from_le_bytes (to_le_bytes w (wrapping_sub w (from_le_bytes c) prev)))
      ≡ from_le_bytes c
next_word w prev c hp h =
    ap (wrapping_add w prev) (from_le_bytes-to_le_bytes w _ (wrapping_sub-lt w _ _))
    ∙ wrapping_add-wrapping_sub w (from_le_bytes c) prev (IsWord-lt w c h) hp

-- Summing the differences up again gives the values.
pub decode_words-deltas :
    (w : ℕ) (out : List ℕ) (prev : ℕ) (cs : List (List ℕ))
    → prev < word_mod w
    → All (IsWord w) cs
    → decode_words w out prev (deltas w prev cs) ≡ out ++ flatten cs
unfolding decode_words deltas
decode_words-deltas w out prev [] hp h = sym (append-nil out)
decode_words-deltas w out prev (c ∷ cs) hp h =
    ap (λ x. decode_words w (out ++ to_le_bytes w x) x rest) (next_word w prev c hp h.0)
    ∙ ap (λ b. decode_words w (out ++ b) (from_le_bytes c) rest)
        (to_le_bytes-from_le_bytes w c h.0.1 h.0.0)
    ∙ decode_words-deltas w (out ++ c) (from_le_bytes c) cs (IsWord-lt w c h.0) h.1
    ∙ append_assoc out c (flatten cs)
  where
    rest : List (List ℕ)
    rest = deltas w (from_le_bytes c) cs

-- The same for the loops of stride 1, whose values are single bytes.
pub byte_deltas : ℕ → List ℕ → List ℕ
byte_deltas prev [] = []
byte_deltas prev (c ∷ cs) = wrapping_sub 1 c prev ∷ byte_deltas c cs

pub encode_bytes-byte_deltas :
    (out : List ℕ) (prev : ℕ) (cs : List ℕ) → encode_bytes out prev cs ≡ out ++ byte_deltas prev cs
unfolding encode_bytes byte_deltas
encode_bytes-byte_deltas out prev [] = sym (append-nil out)
encode_bytes-byte_deltas out prev (c ∷ cs) =
    encode_bytes-byte_deltas (out ++ (wrapping_sub 1 c prev ∷ [])) c cs ∙ append_assoc out _ _

pub length-byte_deltas : (prev : ℕ) (cs : List ℕ) → length (byte_deltas prev cs) ≡ length cs
unfolding byte_deltas
length-byte_deltas prev [] = refl
length-byte_deltas prev (c ∷ cs) = ap suc (length-byte_deltas c cs)

pub decode_bytes-byte_deltas :
    (out : List ℕ) (prev : ℕ) (cs : List ℕ)
    → IsByte prev
    → All IsByte cs
    → decode_bytes out prev (byte_deltas prev cs) ≡ out ++ cs
unfolding decode_bytes byte_deltas
decode_bytes-byte_deltas out prev [] hp h = sym (append-nil out)
decode_bytes-byte_deltas out prev (c ∷ cs) hp h =
    ap (λ x. decode_bytes (out ++ (x ∷ [])) x (byte_deltas c cs))
      (wrapping_add-wrapping_sub 1 c prev h.0 hp)
    ∙ decode_bytes-byte_deltas (out ++ (c ∷ [])) c cs h.0 h.1
    ∙ append_assoc out _ _
