-- ===== src/Encoding/Strings/Dictionary/RoundTrip.antt =====
-- string_dictionary.rs: the decoder comes back on every input, and gives back what was encoded.
use tiny_olap.Base.{
  ℕ, zero, suc, List, [], ◌∷◌, ◌++◌, ◌≤◌, ◌<◌, ◌≡◌, Bool, true, refl, take, ◌+◌, sym, ap, ◌∙◌,
  length, All, append-nil, append_assoc, length-append, get_elem?-lt, ◌>>=◌, ok, Returns,
  bind-Returns, arith,
}
use tiny_olap.Base.Words.{word_mod, from_le_bytes}
use tiny_olap.Encoding.Strings.Prefixed.{
  u32_bytes, write_string, read_u32, read_string, read_u32-u32_bytes, read_string-write_string,
  read_u32-Returns, read_string-Returns, read_u32_takes, read_u32_value, IsStored, length-u32_bytes,
}
use tiny_olap.Encoding.Strings.Dictionary.{
  Building, add_string, reserve, build, empty, write_entries, write_indices, encode, read_entries,
  entry, read_rows, decode,
}
use tiny_olap.Encoding.Strings.Dictionary.Build.{
  IsBuilt, Found, build-Found, build-IsBuilt, build-All, empty-IsBuilt, length-add_string,
}

read_entries-Returns :
    (n : ℕ) (src : List ℕ) (dict : List (List ℕ)) → Returns (read_entries n src dict)
unfolding read_entries
read_entries-Returns zero src dict = tt
read_entries-Returns (suc n) src dict =
    bind-Returns (read_string src) _ (read_string-Returns src)
      (λ (s, rest) e. read_entries-Returns n rest (dict ++ (s ∷ [])))

entry-Returns : (dict : List (List ℕ)) (idx : ℕ) → Returns (entry dict idx)
unfolding entry
entry-Returns dict idx = ground arith

read_rows-Returns :
    (fuel : ℕ) (dict : List (List ℕ)) (src : List ℕ) (out : List (List ℕ))
    → length src ≤ fuel
    → Returns (read_rows fuel dict src out)
unfolding read_rows
read_rows-Returns fuel dict [] out h = tt
read_rows-Returns zero dict (b ∷ bs) out h = absurd (omega arith)
read_rows-Returns (suc fuel) dict (b ∷ bs) out h =
    bind-Returns (read_u32 (b ∷ bs)) _ (read_u32-Returns (b ∷ bs)) (λ (idx, rest) e.
      bind-Returns (entry dict idx) _ (entry-Returns dict idx) (λ s _.
        read_rows-Returns fuel dict rest (out ++ (s ∷ []))
          (omega (arith, read_u32_takes _ idx rest e))))

reserve-granted : (grants : ℕ → Bool) (n : ℕ) → grants n ≡ true → reserve grants n ≡ ok n
unfolding reserve
reserve-granted grants n room = rw room refl

-- `decode` comes back on every input for whose first number the allocator has room.
pub decode-Returns :
    (grants : ℕ → Bool) (src : List ℕ) (out : List (List ℕ))
    → grants (from_le_bytes (take 4 src)) ≡ true
    → Returns (decode grants src out)
unfolding decode
decode-Returns grants src out room =
    bind-Returns (read_u32 src) _ (read_u32-Returns src) (λ (dict_len, entries) read.
      rw
        (reserve-granted grants dict_len
          (ap grants (read_u32_value src dict_len entries read) ∙ room))
        (bind-Returns (read_entries dict_len entries []) _
          (read_entries-Returns dict_len entries [])
          (λ (dict, rows) _. read_rows-Returns (length rows) dict rows out (omega arith))))

-- What the two loops of `encode` write.
entries : List (List ℕ) → List ℕ
entries [] = []
entries (e ∷ dict) = write_string e ++ entries dict

indices : List ℕ → List ℕ
indices [] = []
indices (i ∷ is) = u32_bytes i ++ indices is

write_entries-entries :
    (dict : List (List ℕ)) (out : List ℕ) → write_entries dict out ≡ out ++ entries dict
unfolding write_entries entries
write_entries-entries [] out = sym (append-nil out)
write_entries-entries (e ∷ dict) out =
    write_entries-entries dict (out ++ write_string e) ∙ append_assoc out (write_string e) _

read_entries-entries :
    (dict acc : List (List ℕ)) (rest : List ℕ)
    → All IsStored dict
    → read_entries (length dict) (entries dict ++ rest) acc ≡ ok (acc ++ dict, rest)
unfolding read_entries entries
read_entries-entries [] acc rest all = ap (λ t. ok (t, rest)) (sym (append-nil acc))
read_entries-entries (e ∷ dict) acc rest all =
    rw
      (
        append_assoc (write_string e) (entries dict) rest,
        read_string-write_string e (entries dict ++ rest) all.0,
      )
      (read_entries-entries dict (acc ++ (e ∷ [])) rest all.1
        ∙ ap (λ t. ok (t, rest)) (append_assoc acc (e ∷ []) dict))

-- The index of each row.
abbrev places : (m : List (List ℕ × ℕ)) (src : List (List ℕ)) → All (Found m) src → List ℕ
places m [] found = []
places m (s ∷ src) found = found.0.0 ∷ places m src found.1

write_indices-indices :
    (m : List (List ℕ × ℕ)) (src : List (List ℕ)) (out : List ℕ) (found : All (Found m) src)
    → write_indices src m out ≡ ok (out ++ indices (places m src found))
unfolding write_indices indices
write_indices-indices m [] out found = ap ok (sym (append-nil out))
write_indices-indices m (s ∷ src) out found =
    rw (found.0.1, write_indices)
      (write_indices-indices m src (out ++ u32_bytes found.0.0) found.1
        ∙ ap ok (append_assoc out (u32_bytes found.0.0) _))

read_rows_step :
    (fuel : ℕ) (dict : List (List ℕ)) (src : List ℕ) (out : List (List ℕ)) (idx : ℕ)
    (rest s : List ℕ)
    → read_u32 src ≡ ok (idx, rest)
    → entry dict idx ≡ ok s
    → read_rows (suc fuel) dict src out ≡ read_rows fuel dict rest (out ++ (s ∷ []))
unfolding read_rows
read_rows_step fuel dict [] out idx rest s e f =
    absurd (omega (arith, read_u32_takes [] idx rest e))
read_rows_step fuel dict (b ∷ bs) out idx rest s e f = rw (e, f)

module _ (b : Building) (inv : IsBuilt b) (small : length b.dict < word_mod 4) where
  entry-Found : (s : List ℕ) (f : Found b.index_map s) → entry b.dict f.0 ≡ ok s
  unfolding entry
  entry-Found s f = rw (inv.agree s f.0 f.1, entry)

  place_fits : (s : List ℕ) (f : Found b.index_map s) → f.0 < word_mod 4
  place_fits s f = omega (arith, get_elem?-lt b.dict f.0 (inv.agree s f.0 f.1))

  read_rows-indices :
      (fuel : ℕ) (src out : List (List ℕ)) (found : All (Found b.index_map) src)
      → length (indices (places b.index_map src found)) ≤ fuel
      → read_rows fuel b.dict (indices (places b.index_map src found)) out ≡ ok (out ++ src)
  unfolding indices read_rows
  read_rows-indices fuel [] out found h = ap ok (sym (append-nil out))
  read_rows-indices zero (s ∷ src) out found h =
      let later = indices (places b.index_map src found.1) in
      absurd (omega (arith, length-append (u32_bytes found.0.0) later, length-u32_bytes found.0.0))
  read_rows-indices (suc fuel) (s ∷ src) out found h =
      let later = indices (places b.index_map src found.1) in
      read_rows_step fuel b.dict (u32_bytes found.0.0 ++ later) out found.0.0 later s
        (read_u32-u32_bytes found.0.0 later (place_fits s found.0)) (entry-Found s found.0)
      ∙ read_rows-indices fuel src (out ++ (s ∷ [])) found.1
          (omega (arith, length-append (u32_bytes found.0.0) later, length-u32_bytes found.0.0))
      ∙ ap ok (append_assoc out (s ∷ []) src)

  -- The decoder on a whole block that was written from `b`.
  decode-block :
      (grants : ℕ → Bool) (src out : List (List ℕ)) (found : All (Found b.index_map) src)
      → All IsStored b.dict
      → grants (length b.dict) ≡ true
      → decode grants
          (u32_bytes (length b.dict) ++ (entries b.dict ++ indices (places b.index_map src found)))
          out
        ≡ ok (out ++ src)
  unfolding decode
  decode-block grants src out found stored room =
      rw
        (
          read_u32-u32_bytes (length b.dict)
              (entries b.dict ++ indices (places b.index_map src found)) small,
          reserve-granted grants (length b.dict) room,
          read_entries-entries b.dict [] (indices (places b.index_map src found)) stored,
        )
        (read_rows-indices _ src out found (omega arith))

-- No more strings are kept than there are rows.
length-dict :
    (src : List (List ℕ)) (b : Building) → length (build src b).dict ≤ length src + length b.dict
unfolding build
length-dict [] b = omega arith
length-dict (s ∷ src) b = omega (arith, length-dict src (add_string s b), length-add_string s b)

-- A column of fewer than 2 ^ 32 texts, each shorter than 2 ^ 32 bytes, comes back as it was when
-- the allocator has room for as many strings.
pub decode-encode :
    (grants : ℕ → Bool) (src out : List (List ℕ))
    → ((n : ℕ) → n ≤ length src → grants n ≡ true)
    → length src < word_mod 4
    → All IsStored src
    → (encode src [] >>= λ e. decode grants e out) ≡ ok (out ++ src)
unfolding encode
decode-encode grants src out room few all =
    let b = build src empty in
    let found = build-Found src empty in
    let built = build-IsBuilt src empty (omega arith) empty-IsBuilt in
    rw
      (
        write_entries-entries b.dict (u32_bytes (length b.dict)),
        write_indices-indices b.index_map src (u32_bytes (length b.dict) ++ entries b.dict) found,
        append_assoc (u32_bytes (length b.dict)) (entries b.dict)
            (indices (places b.index_map src found)),
      )
      (decode-block b built.0 built.1 grants src out found (build-All IsStored src empty all tt)
        (room (length b.dict) (omega (arith, length-dict src empty))))
