-- ===== src/Encoding/Delta/RoundTrip.antt =====
-- delta.rs: decoding gives back what was encoded, at every stride that the codec supports.
use tiny_olap.Base.{
  ℕ, zero, true, ◌≤◌, Returns, append-nil, sym, true, false, ◌==◌, ==_iff, is_empty, length-flatten,
  length-chunks_exact, suc, List, [], ◌∷◌, ◌++◌, ◌*◌, ◌%◌, ◌<◌, ◌≡◌, refl, ap, ◌∙◌, ◌>>=◌, length,
  take, drop, flatten, All, All-take, All-drop, chunks_exact, append_assoc, arith, ok,
  length-append, length-take, length-drop, take_prefix, drop_prefix, take-append-drop,
  chunks_exact-flatten, flatten-chunks_exact, chunks_exact-All, leb→not_ltb, pos→not_is_empty,
}
use native.Mathlib.Nat.{mul-mod_left, mod-eq_of_lt}
use native.Mathlib.Decide.{dec_lt}
use tiny_olap.Base.Words.{IsByte, from_le_bytes}
use tiny_olap.Encoding.Delta.{
  encode_stride, decode_stride, encode, decode, encode_first, decode_first,
}
use tiny_olap.Encoding.Delta.Words.{
  IsWord, IsWord-lt, deltas, encode_words-deltas, length-deltas, deltas-All, decode_words-deltas,
  byte_deltas, encode_bytes-byte_deltas, decode_bytes-byte_deltas,
}

whole_mod : (n w : ℕ) → (n * w % w == 0) ≡ true
whole_mod n w = (==_iff _ 0).1 (mul-mod_left n w)

one_mod : (n : ℕ) → (n % 1 == 0) ≡ true
one_mod n = ground arith

module _ (w n : ℕ) (src : List ℕ) (pos : 0 < w) (whole : length src ≡ suc n * w)
    (bytes : All IsByte src) where
  abbrev head : List ℕ
  head = take w src

  abbrev tail_words : List (List ℕ)
  tail_words = chunks_exact w (drop w src)

  abbrev encoded : List ℕ
  encoded = head ++ flatten (deltas w (from_le_bytes head) tail_words)

  length-head : length head ≡ w
  length-head = omega (arith, length-take w src)

  length-tail : length (drop w src) ≡ n * w
  length-tail = omega (arith, length-drop w src)

  length-tail_words : length tail_words ≡ n
  length-tail_words = length-chunks_exact w n (drop w src) pos length-tail

  head-IsWord : IsWord w head
  head-IsWord = (length-head, All-take IsByte w src bytes)

  flatten-tail : flatten tail_words ≡ drop w src
  flatten-tail = flatten-chunks_exact w n (drop w src) pos length-tail

  length-encoded : length encoded ≡ suc n * w
  length-encoded =
      let all_w = deltas-All w (from_le_bytes head) tail_words in
      omega (
        arith,
        length-append head (flatten (deltas w (from_le_bytes head) tail_words)),
        length-flatten w (deltas w (from_le_bytes head) tail_words) all_w,
        ap (λ (t : ℕ). t * w) (length-deltas w (from_le_bytes head) tail_words),
        ap (λ (t : ℕ). t * w) length-tail_words,
        length-head,
      )

  encode_stride-encoded : encode_stride w src [] ≡ ok encoded
  unfolding encode_stride
  encode_stride-encoded =
      rw (leb→not_ltb (length src) w (omega arith))
        (ap ok (encode_words-deltas w head (from_le_bytes head) tail_words))

  decode_stride-encoded : (out : List ℕ) → decode_stride w encoded out ≡ ok (out ++ src)
  unfolding decode_stride
  decode_stride-encoded out =
      rw
        (
          leb→not_ltb (length encoded) w (omega (arith, length-encoded)),
          take_prefix w head _ length-head,
          drop_prefix w head _ length-head,
          chunks_exact-flatten w _ pos (deltas-All w (from_le_bytes head) tail_words),
        )
        (ap ok (
          decode_words-deltas w (out ++ head) (from_le_bytes head) tail_words
            (IsWord-lt w head head-IsWord)
            (chunks_exact-All IsByte w n (drop w src) pos length-tail (All-drop IsByte w src bytes))
          ∙ append_assoc out head (flatten tail_words)
          ∙ ap (λ t. out ++ t) (ap (λ t. head ++ t) flatten-tail ∙ take-append-drop w src)))

  -- What `decode` tests before it chooses an arm.
  encoded_fits : (is_empty encoded ≡ false) × ((length encoded % w == 0) ≡ true)
  encoded_fits = (
    pos→not_is_empty encoded (omega (arith, length-encoded)),
    rw length-encoded (whole_mod (suc n) w),
  )

  src_fits : is_empty src ≡ false
  src_fits = pos→not_is_empty src (omega arith)

-- The strides that the codec supports.
pub data Width : Type 0 where
  one two four eight : Width

abbrev pub stride_of : Width → ℕ
stride_of one = 1
stride_of two = 2
stride_of four = 4
stride_of eight = 8

-- The three arms with words of several bytes differ only in `w`.
words_round :
    (w n : ℕ) (src out : List ℕ)
    → 0 < w
    → length src ≡ suc n * w
    → All IsByte src
    → encode src w [] ≡ encode_stride w src []
    → ((e : List ℕ)
        → is_empty e ≡ false
        → (length e % w == 0) ≡ true
        → decode e w out ≡ decode_stride w e out)
    → (encode src w [] >>= λ e. decode e w out) ≡ ok (out ++ src)
words_round w n src out pos whole bytes arm_e arm_d =
    let fits = encoded_fits w n src pos whole bytes in
    rw (arm_e, encode_stride-encoded w n src pos whole bytes)
      (arm_d _ fits.0 fits.1 ∙ decode_stride-encoded w n src pos whole bytes out)

bytes_round :
    (b : ℕ) (bs out : List ℕ)
    → All IsByte (b ∷ bs)
    → (encode (b ∷ bs) 1 [] >>= λ e. decode e 1 out) ≡ ok (out ++ (b ∷ bs))
unfolding encode decode encode_first decode_first
bytes_round b bs out h =
    rw (encode_bytes-byte_deltas (b ∷ []) b bs, one_mod (suc (length (byte_deltas b bs))))
      (ap ok (decode_bytes-byte_deltas (out ++ (b ∷ [])) b bs h.0 h.1 ∙ append_assoc out _ _))

-- Whole values of bytes come back as they were, at each stride of the codec and behind any output.
pub decode-encode :
    (s : Width) (n : ℕ) (src out : List ℕ)
    → length src ≡ n * stride_of s
    → All IsByte src
    → (encode src (stride_of s) [] >>= λ e. decode e (stride_of s) out) ≡ ok (out ++ src)
unfolding encode decode
decode-encode s n [] out whole bytes = ap ok (sym (append-nil out))
decode-encode s zero (b ∷ bs) out whole bytes = absurd (omega arith)
decode-encode one (suc n) (b ∷ bs) out whole bytes = bytes_round b bs out bytes
decode-encode two (suc n) (b ∷ bs) out whole bytes =
    words_round 2 n (b ∷ bs) out (omega arith) whole bytes refl (λ e p q. rw (p, q))
decode-encode four (suc n) (b ∷ bs) out whole bytes =
    words_round 4 n (b ∷ bs) out (omega arith) whole bytes refl (λ e p q. rw (p, q))
decode-encode eight (suc n) (b ∷ bs) out whole bytes =
    words_round 8 n (b ∷ bs) out (omega arith) whole bytes refl (λ e p q. rw (p, q))

whole_le : (w n : ℕ) → 0 < n → (n % w == 0) ≡ true → w ≤ n
whole_le w n pos h = elim (dec_lt n w) [
  | yes short ↦ absurd (omega (arith, (==_iff (n % w) 0).0 h, mod-eq_of_lt short))
  | no enough ↦ omega arith
]

-- `decode` comes back on every input at every positive stride.
pub decode-Returns :
    (src : List ℕ) (stride : ℕ) (out : List ℕ) → 0 < stride → Returns (decode src stride out)
unfolding decode decode_stride decode_first
decode-Returns [] stride out pos = tt
decode-Returns (b ∷ bs) stride out pos = ground (arith, whole_le stride (suc (length bs)))
