-- ===== src/Storage/ZoneMapFile/RoundTrip.antt =====
-- A zone map is read back as it was written.
use tiny_olap.Base.{
  ℕ, zero, suc, ◌+◌, ◌*◌, ◌%◌, ◌<◌, ◌≤◌, List, [], ◌∷◌, ◌++◌, ◌≡◌, refl, true, length,
  length-append, drop, take_prefix, drop_prefix, leb→not_ltb, All, append_assoc, ok, arith,
}
use tiny_olap.Base.Words.{
  word_mod, to_le_bytes, from_le_bytes, length-to_le_bytes, from_le_bytes-to_le_bytes,
}
use tiny_olap.Base.Utf8.{is_utf8}
use tiny_olap.Execution.ZoneMap.{ZoneEntry, ZoneMap}
use tiny_olap.Storage.ZoneMapFile.{
  EncodedZoneMapEntry, zone_map_version, headers_size, write_headers, write_data, write_zone_map,
  read_exact, Header, from_utf8, read_header, read_headers, read_entries, read_zones, read_body,
  read_zone_map,
}
use native.Mathlib.Nat.{mod-eq_of_lt}

-- What the types of the fields say: a text as the name, a byte as the tag, arrays of eight bytes.
pub record IsEntry (e : EncodedZoneMapEntry) : Type 0 where
  pub text : is_utf8 e.col_name ≡ true
  pub short : length e.col_name < word_mod 2
  pub tag_byte : e.type_tag < 256
  pub min_length : length e.entry.min_bytes ≡ 8
  pub max_length : length e.entry.max_bytes ≡ 8

pub read_exact-append :
    (n : ℕ) (xs ys : List ℕ) → length xs ≡ n → read_exact n (xs ++ ys) ≡ ok (xs, ys)
unfolding read_exact
read_exact-append n xs ys h =
    let enough : n ≤ length (xs ++ ys) = omega (arith, length-append xs ys, h) in
    rw (leb→not_ltb (length (xs ++ ys)) n enough, take_prefix n xs ys h, drop_prefix n xs ys h) refl

header_of : ℕ → EncodedZoneMapEntry → Header
header_of data_offset e = record {
  name = e.col_name;
  type_tag = e.type_tag ∷ [];
  entry_count = 1;
  data_offset = data_offset;
}

headers_of : ℕ → List EncodedZoneMapEntry → List Header
headers_of data_offset [] = []
headers_of data_offset (e ∷ es) = header_of data_offset e ∷ headers_of (data_offset + 16) es

-- The bytes of one header before `rest`.
header_bytes : ℕ → EncodedZoneMapEntry → List ℕ → List ℕ
header_bytes data_offset e rest =
    to_le_bytes 2 (length e.col_name % word_mod 2)
    ++ (e.col_name
        ++ ((e.type_tag ∷ []) ++ (to_le_bytes 4 1 ++ (to_le_bytes 8 data_offset ++ rest))))

read_header-bytes :
    (data_offset : ℕ) (e : EncodedZoneMapEntry) (rest : List ℕ)
    → IsEntry e
    → data_offset < word_mod 8
    → read_header (header_bytes data_offset e rest) ≡ ok (header_of data_offset e, rest)
unfolding read_header header_bytes header_of from_utf8
read_header-bytes data_offset e rest valid fits =
    let len = length e.col_name in
    let in_range : len % word_mod 2 ≡ len = mod-eq_of_lt valid.short in
    rw
      (
        in_range,
        read_exact-append 2 (to_le_bytes 2 len)
            (e.col_name
              ++ ((e.type_tag ∷ []) ++ (to_le_bytes 4 1 ++ (to_le_bytes 8 data_offset ++ rest))))
            (length-to_le_bytes 2 len),
        from_le_bytes-to_le_bytes 2 len valid.short,
        read_exact-append len e.col_name
            ((e.type_tag ∷ []) ++ (to_le_bytes 4 1 ++ (to_le_bytes 8 data_offset ++ rest))) refl,
        valid.text,
        read_exact-append 1 (e.type_tag ∷ [])
            (to_le_bytes 4 1 ++ (to_le_bytes 8 data_offset ++ rest)) refl,
        read_exact-append 4 (to_le_bytes 4 1) (to_le_bytes 8 data_offset ++ rest)
            (length-to_le_bytes 4 1),
        read_exact-append 8 (to_le_bytes 8 data_offset) rest (length-to_le_bytes 8 data_offset),
        from_le_bytes-to_le_bytes 8 data_offset fits,
        from_le_bytes-to_le_bytes 4 1 (omega arith),
      )
      refl

read_headers-write_headers :
    (data_offset : ℕ) (es : List EncodedZoneMapEntry) (rest : List ℕ)
    → All IsEntry es
    → data_offset + 16 * length es < word_mod 8
    → read_headers (length es) (write_headers data_offset es ++ rest)
      ≡ ok (headers_of data_offset es, rest)
unfolding read_headers write_headers headers_of header_bytes
read_headers-write_headers data_offset [] rest valid fits = refl
read_headers-write_headers data_offset (e ∷ es) rest (ve, valid) fits =
    rw
      (
        regroup,
        read_header-bytes data_offset e (write_headers (data_offset + 16) es ++ rest) ve
            (omega arith),
        read_headers-write_headers (data_offset + 16) es rest valid (omega arith),
      )
      refl
  where
    later : List ℕ
    later = write_headers (data_offset + 16) es

    len : List ℕ
    len = to_le_bytes 2 (length e.col_name % word_mod 2)

    offset : List ℕ
    offset = to_le_bytes 8 data_offset

    regroup :
        (len ++ (e.col_name ++ ((e.type_tag ∷ []) ++ (to_le_bytes 4 1 ++ (offset ++ later)))))
          ++ rest
        ≡ header_bytes data_offset e (later ++ rest)
    regroup = simp append_assoc

entries_of : EncodedZoneMapEntry → List ZoneEntry
entries_of e = e.entry ∷ []

read_entries-write_data :
    (e : EncodedZoneMapEntry) (rest : List ℕ)
    → IsEntry e
    → read_entries 1 (e.entry.min_bytes ++ (e.entry.max_bytes ++ rest)) ≡ ok (entries_of e, rest)
unfolding read_entries entries_of
read_entries-write_data e rest valid =
    rw
      (
        read_exact-append 8 e.entry.min_bytes (e.entry.max_bytes ++ rest) valid.min_length,
        read_exact-append 8 e.entry.max_bytes rest valid.max_length,
      )
      refl

-- The map that holds the columns one after the other.
unfoldable pub zone_map_of : List EncodedZoneMapEntry → ZoneMap → ZoneMap
unfolding entries_of
zone_map_of [] zone_map = zone_map
zone_map_of (e ∷ es) zone_map =
    zone_map_of es
      ((e.col_name, record { type_tag = e.type_tag; entries = entries_of e }) ∷ zone_map)

drop-nil : (n : ℕ) → drop {A = ℕ} n [] ≡ []
drop-nil zero = refl
drop-nil (suc n) = refl

pub drop-drop : (a b : ℕ) (xs : List ℕ) → drop (a + b) xs ≡ drop b (drop a xs)
drop-drop zero b xs = let none : 0 + b ≡ b = omega arith in rw none refl
drop-drop (suc a) b [] =
    let more : suc a + b ≡ suc (a + b) = omega arith in rw (more, drop-nil b) refl
drop-drop (suc a) b (x ∷ xs) =
    let more : suc a + b ≡ suc (a + b) = omega arith in rw more (drop-drop a b xs)

drop-entry :
    (e : EncodedZoneMapEntry) (rest : List ℕ)
    → IsEntry e
    → drop 16 (e.entry.min_bytes ++ (e.entry.max_bytes ++ rest)) ≡ rest
drop-entry e rest valid =
    let both = e.entry.min_bytes ++ e.entry.max_bytes in
    let size : length both ≡ 16 = omega (
      arith,
      length-append e.entry.min_bytes e.entry.max_bytes,
      valid.min_length,
      valid.max_length,
    ) in
    rw (← append_assoc e.entry.min_bytes e.entry.max_bytes rest) (drop_prefix 16 both rest size)

pub one_byte : (b : ℕ) → from_le_bytes (b ∷ []) ≡ b
unfolding from_le_bytes
one_byte b = omega arith

read_zones-headers_of :
    (file : List ℕ) (data_offset : ℕ) (es : List EncodedZoneMapEntry) (zone_map : ZoneMap)
    → All IsEntry es
    → drop data_offset file ≡ write_data es
    → read_zones file (headers_of data_offset es) zone_map ≡ ok (zone_map_of es zone_map)
unfolding read_zones headers_of header_of write_data zone_map_of
read_zones-headers_of file data_offset [] zone_map valid at = refl
read_zones-headers_of file data_offset (e ∷ es) zone_map (ve, valid) at =
    let next : drop (data_offset + 16) file ≡ write_data es =
      rw (drop-drop data_offset 16 file, at) (drop-entry e (write_data es) ve) in
    rw (at, read_entries-write_data e (write_data es) ve, one_byte e.type_tag)
      (read_zones-headers_of file (data_offset + 16) es
        ((e.col_name, record { type_tag = e.type_tag; entries = entries_of e }) ∷ zone_map) valid
        next)

length-write_headers :
    (data_offset : ℕ) (es : List EncodedZoneMapEntry)
    → length (write_headers data_offset es) ≡ headers_size es
unfolding write_headers headers_size
length-write_headers data_offset [] = refl
length-write_headers data_offset (e ∷ es) =
    let len = to_le_bytes 2 (length e.col_name % word_mod 2) in
    let count = to_le_bytes 4 1 in
    let offset = to_le_bytes 8 data_offset in
    let later = write_headers (data_offset + 16) es in
    omega (
      arith,
      length-append len (e.col_name ++ (e.type_tag ∷ (count ++ (offset ++ later)))),
      length-append e.col_name (e.type_tag ∷ (count ++ (offset ++ later))),
      length-append count (offset ++ later),
      length-append offset later,
      length-to_le_bytes 2 (length e.col_name % word_mod 2),
      length-to_le_bytes 4 1,
      length-to_le_bytes 8 data_offset,
      length-write_headers (data_offset + 16) es,
    )

-- The data begin behind the headers.
drop-write_zone_map :
    (es : List EncodedZoneMapEntry) → drop (3 + headers_size es) (write_zone_map es) ≡ write_data es
unfolding write_zone_map
drop-write_zone_map es =
    let count = to_le_bytes 2 (length es % word_mod 2) in
    let headers = write_headers (3 + headers_size es) es in
    let size : length (zone_map_version ∷ (count ++ headers)) ≡ 3 + headers_size es = omega (
      arith,
      length-append count headers,
      length-to_le_bytes 2 (length es % word_mod 2),
      length-write_headers (3 + headers_size es) es,
    ) in
    rw (← append_assoc count headers (write_data es)) (
      drop_prefix (3 + headers_size es) (zone_map_version ∷ (count ++ headers)) (write_data es)
        size)

behind_version : List EncodedZoneMapEntry → List ℕ
behind_version es =
    to_le_bytes 2 (length es % word_mod 2)
    ++ (write_headers (3 + headers_size es) es ++ write_data es)

version_read :
    (es : List EncodedZoneMapEntry)
    → read_exact 1 (write_zone_map es) ≡ ok (zone_map_version ∷ [], behind_version es)
unfolding write_zone_map behind_version
version_read es = read_exact-append 1 (zone_map_version ∷ []) (behind_version es) refl

count_read :
    (es : List EncodedZoneMapEntry)
    → length es < word_mod 2
    → read_exact 2 (behind_version es)
      ≡ ok (to_le_bytes 2 (length es), write_headers (3 + headers_size es) es ++ write_data es)
unfolding behind_version
count_read es few =
    let in_range : length es % word_mod 2 ≡ length es = mod-eq_of_lt few in
    rw in_range (
      read_exact-append 2 (to_le_bytes 2 (length es))
        (write_headers (3 + headers_size es) es ++ write_data es)
        (length-to_le_bytes 2 (length es)))

-- A zone map of fewer than 2 ^ 16 columns, in a file of fewer than 2 ^ 64 bytes, is read back with
-- the same columns, tags and bounds.
pub read_zone_map-write_zone_map :
    (es : List EncodedZoneMapEntry)
    → All IsEntry es
    → length es < word_mod 2
    → 3 + headers_size es + 16 * length es < word_mod 8
    → read_zone_map (write_zone_map es) ≡ ok (zone_map_of es [])
unfolding read_zone_map read_body
read_zone_map-write_zone_map es valid few fits =
    rw
      (
        version_read es,
        one_byte zone_map_version,
        count_read es few,
        from_le_bytes-to_le_bytes 2 (length es) few,
        read_headers-write_headers (3 + headers_size es) es (write_data es) valid fits,
      )
      (read_zones-headers_of (write_zone_map es) (3 + headers_size es) es [] valid
        (drop-write_zone_map es))
