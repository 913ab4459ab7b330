-- ===== src/Storage/Mark.antt =====
-- tinyolap/src/storage/mark.rs: where a granule starts, 24 bytes of which the last 8 are zero.
pub mod RoundTrip
use tiny_olap.Base.{ℕ, List, ◌++◌, map, flatten, take, drop, chunks_exact}
use tiny_olap.Base.Words.{to_le_bytes, from_le_bytes}

pub record Mark : Type 0 where
  pub block_offset : ℕ
  pub decompressed_offset : ℕ

unfoldable pub to_bytes : Mark → List ℕ
to_bytes m =
    to_le_bytes 8 m.block_offset ++ (to_le_bytes 8 m.decompressed_offset ++ to_le_bytes 8 0)

-- Of 24 bytes.
unfoldable pub from_bytes : List ℕ → Mark
from_bytes bytes = record {
  block_offset = from_le_bytes (take 8 bytes);
  decompressed_offset = from_le_bytes (take 8 (drop 8 bytes));
}

-- `MarkReader::read_all` of the bytes of the file.
unfoldable pub read_all : List ℕ → List Mark
read_all bytes = map from_bytes (chunks_exact 24 bytes)
