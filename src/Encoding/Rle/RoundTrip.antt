-- ===== src/Encoding/Rle/RoundTrip.antt =====
-- rle.rs: the decoder ends on every input, and gives back what was encoded.
use tiny_olap.Base.{
  ℕ, zero, suc, List, [], ◌∷◌, ◌++◌, ◌+◌, ◌*◌, ◌≤◌, ◌<◌, ◌==◌, ◌≡◌, inl, inr, refl, sym, ap, ◌∙◌,
  ◌&&◌, false, ltb, if◌then◌else◌, length, take, drop, replicate, flatten, All, chunks_exact,
  bytes_eq, bytes_eq→eq, Bool-cases, append-nil, append_assoc, arith, ok, Returns, ◌>>=◌,
  length-append, length-take, length-drop, take_prefix, drop_prefix, take-append-drop,
  flatten-chunks_exact, chunks_exact-lengths, leb→not_ltb, lt→ltb, pos→not_is_empty,
}
use native.Mathlib.Numerals.{add-one}
use tiny_olap.Base.Words.{
  word_mod, to_le_bytes, from_le_bytes, length-to_le_bytes, from_le_bytes-to_le_bytes,
}
use tiny_olap.Encoding.Rle.{max_count, encode_loop, encode, extend_times, decode_loop, decode}

decode_loop-Returns :
    (fuel stride : ℕ) (src out : List ℕ)
    → length src ≤ fuel
    → Returns (decode_loop fuel stride src out)
unfolding decode_loop
decode_loop-Returns fuel stride [] out h = tt
decode_loop-Returns zero stride (b ∷ bs) out h = absurd (omega arith)
decode_loop-Returns (suc fuel) stride (b ∷ bs) out h =
    let out' = extend_times (from_le_bytes (take 2 (b ∷ bs))) (take stride (drop 2 (b ∷ bs))) out in
    let ih =
      decode_loop-Returns fuel stride (drop (2 + stride) (b ∷ bs)) out'
        (omega (arith, length-drop (2 + stride) (b ∷ bs))) in
    elim (Bool-cases (ltb (length (b ∷ bs)) (2 + stride))) [
      | inl short ↦ rw short tt
      | inr enough ↦ rw enough ih
    ]

-- The addition of the stride does not overflow.
decode-decode_loop :
    (src : List ℕ) (stride : ℕ) (out : List ℕ)
    → 2 + stride < word_mod 8
    → decode src stride out ≡ decode_loop (length src) stride src out
unfolding decode
decode-decode_loop src stride out fits = rw (lt→ltb (2 + stride) (word_mod 8) fits) refl

-- `decode` comes back on every input, with the bytes or with an error, at every stride that can be
-- added to 2.
pub decode-Returns :
    (src : List ℕ) (stride : ℕ) (out : List ℕ)
    → 2 + stride < word_mod 8
    → Returns (decode src stride out)
decode-Returns src stride out fits =
    rw (decode-decode_loop src stride out fits)
      (decode_loop-Returns (length src) stride src out (omega arith))

-- A run of `count` copies of a value.
abbrev Run : Type 0
Run = ℕ × List ℕ

abbrev IsRun : ℕ → Run → Type 0
IsRun w (count, value) = (count ≤ max_count) × (length value ≡ w)

copies : ℕ → List ℕ → List ℕ
copies count value = flatten (replicate count value)

expand : List Run → List ℕ
expand [] = []
expand ((count, value) ∷ rs) = copies count value ++ expand rs

written : List Run → List ℕ
written [] = []
written ((count, value) ∷ rs) = to_le_bytes 2 count ++ (value ++ written rs)

runs : List ℕ → ℕ → List (List ℕ) → List Run
runs prev count [] = (count, prev) ∷ []
runs prev count (c ∷ cs) =
    let longer = runs prev (count + 1) cs in
    let next = (count, prev) ∷ runs c 1 cs in
    if bytes_eq c prev && ltb count max_count then longer else next

encode_loop-runs :
    (out prev : List ℕ) (count : ℕ) (cs : List (List ℕ))
    → encode_loop out prev count cs ≡ out ++ written (runs prev count cs)
unfolding encode_loop written runs
encode_loop-runs out prev count [] =
    ap (λ t. out ++ (to_le_bytes 2 count ++ t)) (sym (append-nil prev))
encode_loop-runs out prev count (c ∷ cs) =
    elim (Bool-cases (bytes_eq c prev && ltb count max_count)) [
      | inl same ↦ rw same (encode_loop-runs out prev (count + 1) cs)
      | inr new ↦ rw new (
          encode_loop-runs (out ++ (to_le_bytes 2 count ++ prev)) c 1 cs
          ∙ append_assoc out _ _
          ∙ ap (λ t. out ++ t) (append_assoc (to_le_bytes 2 count) prev _))
    ]

runs-IsRun :
    (w : ℕ) (prev : List ℕ) (count : ℕ) (cs : List (List ℕ))
    → count ≤ max_count
    → length prev ≡ w
    → All (λ c. length c ≡ w) cs
    → All (IsRun w) (runs prev count cs)
unfolding runs
runs-IsRun w prev count [] hc hp h = ((hc, hp), tt)
runs-IsRun w prev count (c ∷ cs) hc hp h =
    elim (Bool-cases (bytes_eq c prev && ltb count max_count)) [
      | inl same ↦ rw same (runs-IsRun w prev (count + 1) cs (ground arith) hp h.1)
      | inr new ↦ rw new ((hc, hp), runs-IsRun w c 1 cs (omega arith) h.0 h.1)
    ]

copies_one : (v : List ℕ) → copies 1 v ≡ v
unfolding copies
copies_one v = append-nil v

copies_comm : (n : ℕ) (v : List ℕ) → v ++ copies n v ≡ copies n v ++ v
unfolding copies
copies_comm zero v = append-nil v
copies_comm (suc n) v = ap (λ t. v ++ t) (copies_comm n v) ∙ sym (append_assoc v _ v)

copies-suc : (n : ℕ) (v : List ℕ) → copies (n + 1) v ≡ copies n v ++ v
copies-suc n v = rw add-one (unfold copies in copies_comm n v)

-- The runs stand for the values that they were made of.
expand-runs :
    (prev : List ℕ) (count : ℕ) (cs : List (List ℕ))
    → expand (runs prev count cs) ≡ copies count prev ++ flatten cs
unfolding expand runs
expand-runs prev count [] = refl
expand-runs prev count (c ∷ cs) = elim (Bool-cases (bytes_eq c prev && ltb count max_count)) [
  | inl same ↦ rw same (
      expand-runs prev (count + 1) cs
      ∙ rw copies-suc (append_assoc (copies count prev) prev _)
      ∙ ap (λ t. copies count prev ++ (t ++ flatten cs)) (sym (bytes_eq→eq c prev (ground arith))))
  | inr new ↦ rw new (
      ap (λ t. copies count prev ++ t)
        (expand-runs c 1 cs ∙ ap (λ t. t ++ flatten cs) (copies_one c)))
]

extend_times-copies : (n : ℕ) (v out : List ℕ) → extend_times n v out ≡ out ++ copies n v
unfolding extend_times copies
extend_times-copies zero v out = sym (append-nil out)
extend_times-copies (suc n) v out = extend_times-copies n v (out ++ v) ∙ append_assoc out v _

-- One round of the decoder's loop on a slice that is not empty.
decode_loop_step :
    (fuel stride : ℕ) (src out : List ℕ)
    → 2 + stride ≤ length src
    → decode_loop (suc fuel) stride src out
      ≡ decode_loop fuel stride
          (drop (2 + stride) src)
          (extend_times (from_le_bytes (take 2 src)) (take stride (drop 2 src)) out)
unfolding decode_loop
decode_loop_step fuel stride [] out h = absurd (omega arith)
decode_loop_step fuel stride (b ∷ bs) out h = rw (leb→not_ltb (suc (length bs)) (2 + stride) h)

module _ (w count : ℕ) (value rest : List ℕ) (fits : IsRun w (count, value)) where
  abbrev written_run : List ℕ
  written_run = to_le_bytes 2 count ++ (value ++ rest)

  drop-written_run : drop (2 + w) written_run ≡ rest
  drop-written_run = rw (← append_assoc (to_le_bytes 2 count) value rest) (
      drop_prefix (2 + w) (to_le_bytes 2 count ++ value) rest (
        omega
          (arith, length-append (to_le_bytes 2 count) value, length-to_le_bytes 2 count, fits.1)))

  count-written_run : from_le_bytes (take 2 written_run) ≡ count
  count-written_run =
      rw (take_prefix 2 (to_le_bytes 2 count) (value ++ rest) (length-to_le_bytes 2 count))
        (from_le_bytes-to_le_bytes 2 count (omega (arith, fits.0)))

  value-written_run : take w (drop 2 written_run) ≡ value
  value-written_run =
      rw (drop_prefix 2 (to_le_bytes 2 count) (value ++ rest) (length-to_le_bytes 2 count))
        (take_prefix w value rest fits.1)

  length-written_run : length written_run ≡ 2 + w + length rest
  length-written_run = omega (
    arith,
    length-append (to_le_bytes 2 count) (value ++ rest),
    length-append value rest,
    length-to_le_bytes 2 count,
    fits.1,
  )

  decode_loop-written_run :
      (fuel : ℕ) (out : List ℕ)
      → decode_loop (suc fuel) w written_run out
        ≡ decode_loop fuel w rest (out ++ copies count value)
  decode_loop-written_run fuel out =
      decode_loop_step fuel w written_run out (omega (arith, length-written_run))
      ∙ rw (drop-written_run, count-written_run, value-written_run, extend_times-copies)

decode_loop-written :
    (fuel w : ℕ) (rs : List Run) (out : List ℕ)
    → length (written rs) ≤ fuel
    → All (IsRun w) rs
    → decode_loop fuel w (written rs) out ≡ ok (out ++ expand rs)
unfolding written expand decode_loop
decode_loop-written fuel w [] out h all = ap ok (sym (append-nil out))
decode_loop-written zero w ((count, value) ∷ rs) out h all =
    absurd (omega (arith, length-written_run w count value (written rs) all.0))
decode_loop-written (suc fuel) w ((count, value) ∷ rs) out h all =
    decode_loop-written_run w count value (written rs) all.0 fuel out
    ∙ decode_loop-written fuel w rs (out ++ copies count value)
        (omega (arith, length-written_run w count value (written rs) all.0)) all.1
    ∙ ap ok (append_assoc out (copies count value) (expand rs))

not_zero : (w : ℕ) → 0 < w → (w == 0) ≡ false
not_zero w h = ground arith

module _ (w n : ℕ) (src : List ℕ) (pos : 0 < w) (whole : length src ≡ suc n * w) where
  abbrev src_runs : List Run
  src_runs = runs (take w src) 1 (chunks_exact w (drop w src))

  tail_whole : length (drop w src) ≡ n * w
  tail_whole = omega (arith, length-drop w src)

  head_whole : length (take w src) ≡ w
  head_whole = omega (arith, length-take w src)

  encode-written : encode src w [] ≡ ok (written src_runs)
  unfolding encode
  encode-written =
      rw
        (
          pos→not_is_empty src (omega arith),
          leb→not_ltb (length src) w (omega arith),
          not_zero w pos,
        )
        (ap ok (encode_loop-runs [] (take w src) 1 (chunks_exact w (drop w src))))

  src_runs-IsRun : All (IsRun w) src_runs
  src_runs-IsRun =
      runs-IsRun w (take w src) 1 (chunks_exact w (drop w src)) (omega arith) head_whole
        (chunks_exact-lengths w n (drop w src) pos tail_whole)

  expand-src_runs : expand src_runs ≡ src
  expand-src_runs =
      expand-runs (take w src) 1 (chunks_exact w (drop w src))
      ∙ rw (copies_one, flatten-chunks_exact w n (drop w src) pos tail_whole)
          (take-append-drop w src)

-- Whole values come back as they were, however long the runs, at every width to which 2 can be
-- added in 64 bits.
pub decode-encode :
    (w n : ℕ) (src out : List ℕ)
    → 0 < w
    → 2 + w < word_mod 8
    → length src ≡ n * w
    → (encode src w [] >>= λ e. decode e w out) ≡ ok (out ++ src)
decode-encode w n [] out pos fits whole =
    unfold encode decode_loop in decode-decode_loop [] w out fits ∙ ap ok (sym (append-nil out))
decode-encode w zero (b ∷ bs) out pos fits whole = absurd (omega arith)
decode-encode w (suc n) (b ∷ bs) out pos fits whole = rw (encode-written w n (b ∷ bs) pos whole) (
    decode-decode_loop (written (src_runs w n (b ∷ bs) pos whole)) w out fits
    ∙ decode_loop-written _ w (src_runs w n (b ∷ bs) pos whole) out (omega arith)
        (src_runs-IsRun w n (b ∷ bs) pos whole)
    ∙ ap (λ t. ok (out ++ t)) (expand-src_runs w n (b ∷ bs) pos whole))
