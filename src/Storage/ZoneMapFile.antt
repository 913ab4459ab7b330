-- ===== src/Storage/ZoneMapFile.antt =====
-- tinyolap/src/storage/zone_map.rs: the bounds of the columns of a part, to and from the bytes of
-- the file.
pub mod RoundTrip
use tiny_olap.Base.{
  ℕ, zero, suc, ◌+◌, ◌*◌, ◌%◌, List, [], ◌∷◌, ◌++◌, length, take, drop, ltb, ◌==◌, if◌then◌else◌,
  Result, ok, err, ◌>>=◌,
}
use tiny_olap.Base.Words.{word_mod, to_le_bytes, from_le_bytes}
use tiny_olap.Base.Utf8.{is_utf8}
use tiny_olap.Catalog.{Name}
use tiny_olap.Execution.ZoneMap.{ZoneEntry, ColumnZone, ZoneMap}

-- The kinds of `io::Error` that reading gives.
pub data ReadError : Type 0 where
  unexpected_eof invalid_data : ReadError

pub record EncodedZoneMapEntry : Type 0 where
  pub col_name : Name
  pub type_tag : ℕ
  pub entry : ZoneEntry

abbrev pub zone_map_version : ℕ
zone_map_version = 1

-- `map(…).sum()`.
unfoldable pub headers_size : List EncodedZoneMapEntry → ℕ
headers_size [] = 0
headers_size (e ∷ es) = (2 + length e.col_name + 1 + 4 + 8) + headers_size es

-- The headers, with the offset of the entries of each column.
unfoldable pub write_headers : ℕ → List EncodedZoneMapEntry → List ℕ
write_headers data_offset [] = []
write_headers data_offset (e ∷ es) =
    to_le_bytes 2 (length e.col_name % word_mod 2)
    ++ (e.col_name
        ++ ((e.type_tag ∷ [])
            ++ (to_le_bytes 4 1
                ++ (to_le_bytes 8 data_offset ++ write_headers (data_offset + 16) es))))

unfoldable pub write_data : List EncodedZoneMapEntry → List ℕ
write_data [] = []
write_data (e ∷ es) = e.entry.min_bytes ++ (e.entry.max_bytes ++ write_data es)

-- The bytes of the file.
unfoldable pub write_zone_map : List EncodedZoneMapEntry → List ℕ
write_zone_map entries =
    (zone_map_version ∷ [])
    ++ (to_le_bytes 2 (length entries % word_mod 2)
        ++ (write_headers (3 + headers_size entries) entries ++ write_data entries))

-- A read gives its value and the rest of the file.
abbrev pub Read {ℓ} : Type ℓ → Type ℓ
Read A = Result ReadError (A × List ℕ)

unfoldable pub read_exact : ℕ → List ℕ → Read (List ℕ)
read_exact n src = if ltb (length src) n then err unexpected_eof else ok (take n src, drop n src)

pub record Header : Type 0 where
  pub name : Name
  pub type_tag : List ℕ
  pub entry_count : ℕ
  pub data_offset : ℕ

unfoldable pub from_utf8 : List ℕ → Result ReadError Name
from_utf8 bytes = if is_utf8 bytes then ok bytes else err invalid_data

unfoldable pub read_header : List ℕ → Read Header
read_header src = do
  (name_len, src1) ← read_exact 2 src
  (name_bytes, src2) ← read_exact (from_le_bytes name_len) src1
  name ← from_utf8 name_bytes
  (type_tag, src3) ← read_exact 1 src2
  (entry_count, src4) ← read_exact 4 src3
  (data_offset, src5) ← read_exact 8 src4
  ok (
    record {
      name = name;
      type_tag = type_tag;
      entry_count = from_le_bytes entry_count;
      data_offset = from_le_bytes data_offset;
    },
    src5,
  )

-- `for _ in 0..col_count`.
unfoldable pub read_headers : ℕ → List ℕ → Read (List Header)
read_headers zero src = ok ([], src)
read_headers (suc n) src = do
  (h, rest) ← read_header src
  (hs, rest') ← read_headers n rest
  ok (h ∷ hs, rest')

-- `for _ in 0..h.entry_count`.
unfoldable pub read_entries : ℕ → List ℕ → Read (List ZoneEntry)
read_entries zero src = ok ([], src)
read_entries (suc n) src = do
  (min_bytes, src1) ← read_exact 8 src
  (max_bytes, src2) ← read_exact 8 src1
  (es, rest) ← read_entries n src2
  ok (record { min_bytes = min_bytes; max_bytes = max_bytes } ∷ es, rest)

-- A seek past the end of the file leaves nothing to read.
unfoldable pub read_zones : List ℕ → List Header → ZoneMap → Result ReadError ZoneMap
read_zones file [] zone_map = ok zone_map
read_zones file (h ∷ hs) zone_map = do
  (entries, _) ← read_entries h.entry_count (drop h.data_offset file)
  read_zones file hs
      ((h.name, record { type_tag = from_le_bytes h.type_tag; entries = entries }) ∷ zone_map)

unfoldable pub read_body : List ℕ → List ℕ → List ℕ → Result ReadError ZoneMap
read_body file version src =
    if from_le_bytes version == zone_map_version
    then (do
      (col_count, src1) ← read_exact 2 src
      (headers, _) ← read_headers (from_le_bytes col_count) src1
      read_zones file headers [])
    else err invalid_data

unfoldable pub read_zone_map : List ℕ → Result ReadError ZoneMap
read_zone_map file = do (version, src) ← read_exact 1 file; read_body file version src
