-- ===== src/Encoding/Strings/Dictionary.antt =====
-- tinyolap/src/encoding/string_dictionary.rs: the distinct strings, then one u32 index per row.
mod Build
pub mod RoundTrip
use tiny_olap.Base.{
  ℕ, zero, suc, List, [], ◌∷◌, ◌++◌, ◌%◌, Bool, Option, none, some, length, get_elem?, bytes_eq,
  if◌then◌else◌, Result, ◌>>=◌, ok, err, panic, stuck,
}
use tiny_olap.Base.Words.{word_mod}
use tiny_olap.Encoding.Error.{EncodingError, Output, corrupt}
use tiny_olap.Encoding.Strings.Prefixed.{u32_bytes, write_string, read_u32, read_string, Read}

-- A `HashMap<&str, u32>` by its entries, and the entries in the order of insertion.
pub record Building : Type 0 where
  pub index_map : List (List ℕ × ℕ)
  pub dict : List (List ℕ)

unfoldable pub lookup : List ℕ → List (List ℕ × ℕ) → Option ℕ
lookup s [] = none
lookup s ((k, i) ∷ m) = if bytes_eq k s then some i else lookup s m

insert_new : List ℕ → Building → Building
insert_new s b = record {
  index_map = (s, length b.dict % word_mod 4) ∷ b.index_map;
  dict = b.dict ++ (s ∷ []);
}

-- One round of the loop that fills the dictionary.
unfoldable pub add_string : List ℕ → Building → Building
unfolding insert_new
add_string s b = elim (lookup s b.index_map) [ some i ↦ b | none ↦ insert_new s b ]

unfoldable pub build : List (List ℕ) → Building → Building
build [] b = b
build (s ∷ src) b = build src (add_string s b)

unfoldable pub write_entries : List (List ℕ) → List ℕ → List ℕ
write_entries [] out = out
write_entries (e ∷ dict) out = write_entries dict (out ++ write_string e)

-- `index_map[s]` panics on a missing key.
unfoldable pub write_indices : List (List ℕ) → List (List ℕ × ℕ) → List ℕ → Output
write_indices [] m out = ok out
write_indices (s ∷ src) m out = elim (lookup s m) [
  | none ↦ panic
  | some i ↦ write_indices src m (out ++ u32_bytes i)
]

abbrev pub empty : Building
empty = record { index_map = []; dict = [] }

unfoldable pub encode : List (List ℕ) → List ℕ → Output
encode src out =
    let b = build src empty in
    write_indices src b.index_map (write_entries b.dict (out ++ u32_bytes (length b.dict)))

-- `for _ in 0..dict_len`.
unfoldable pub read_entries : ℕ → List ℕ → List (List ℕ) → Read (List (List ℕ))
read_entries zero src dict = ok (dict, src)
read_entries (suc n) src dict = do
  (s, rest) ← read_string src
  read_entries n rest (dict ++ (s ∷ []))

-- An index past the dictionary is `Corrupt`.
unfoldable pub entry : List (List ℕ) → ℕ → Result EncodingError (List ℕ)
entry dict idx = elim (get_elem? dict idx) [ none ↦ err corrupt | some s ↦ ok s ]

-- The loop `while i < src.len()`; the list is `src[i..]`.
unfoldable pub read_rows :
    ℕ → List (List ℕ) → List ℕ → List (List ℕ) → Result EncodingError (List (List ℕ))
read_rows fuel dict [] out = ok out
read_rows zero dict (b ∷ bs) out = stuck
read_rows (suc fuel) dict (b ∷ bs) out = do
  (idx, rest) ← read_u32 (b ∷ bs)
  s ← entry dict idx
  read_rows fuel dict rest (out ++ (s ∷ []))

-- `Vec::with_capacity(dict_len)`. The allocator decides for how many strings it has room; when it
-- has none the program aborts.
unfoldable pub reserve : (ℕ → Bool) → ℕ → Result EncodingError ℕ
reserve grants n = if grants n then ok n else panic

-- Each row takes four bytes, so `src.len()` rounds are enough.
unfoldable pub decode : (ℕ → Bool) → List ℕ → List (List ℕ) → Result EncodingError (List (List ℕ))
decode grants src out = do
  (dict_len, entries) ← read_u32 src
  _ ← reserve grants dict_len
  (dict, rows) ← read_entries dict_len entries []
  read_rows (length rows) dict rows out
