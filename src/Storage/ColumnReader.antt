-- ===== src/Storage/ColumnReader.antt =====
-- tinyolap/src/storage/column_reader.rs: granules of a column read back through a cache of one block.
pub mod Granules
pub mod Layout
pub mod Blocks
pub mod Reads
pub mod Written
pub mod RowEnds
pub mod Rows
pub mod Marks
pub mod RoundTrip
use tiny_olap.Base.{
  ℕ, suc, ◌-◌, List, [], ◌∷◌, Option, none, some, ◌==◌, ltb, if◌then◌else◌, length, take, drop,
  get_elem?, chunks_exact, Result, ok, err, panic, stuck, ◌>>=◌,
}
use tiny_olap.Base.Words.{from_le_bytes}
use tiny_olap.Encoding.Error.{EncodingError}
use tiny_olap.Encoding.Primitive.{Primitive}
use tiny_olap.Encoding.Codec as Codecs
use tiny_olap.Encoding.Codec.{Codec}
use tiny_olap.Storage.Mark.{Mark, read_all}
use tiny_olap.Storage.ZoneMapFile.{ReadError, invalid_data, read_exact}

-- `bin` is the content of the file; `cache` an offset and the decoded block found there.
pub record ColumnReader : Type 0 where
  pub bin : List ℕ
  pub marks : List Mark
  pub cache : Option (ℕ × List ℕ)

-- Of the contents of the two files.
unfoldable pub open_column : List ℕ → List ℕ → ColumnReader
open_column bin marks = record { bin = bin; marks = read_all marks; cache = none }

unfoldable pub granule_count : ColumnReader → ℕ
granule_count r = length r.marks

-- `.map_err(|e| io::Error::new(InvalidData, …))`.
unfoldable pub invalid {ℓ} : {A : Type ℓ} → Result EncodingError A → Result ReadError A
invalid (ok a) = ok a
invalid (err e) = err invalid_data
invalid panic = panic
invalid stuck = stuck

unfoldable pub decompressed : Option (List ℕ) → Result ReadError (List ℕ)
decompressed none = err invalid_data
decompressed (some bytes) = ok bytes

-- `block[start..end]`.
unfoldable pub slice : ℕ → ℕ → List ℕ → Result ReadError (List ℕ)
slice start end block =
    if ltb end start
    then panic
    else if ltb (length block) end
    then panic
    else ok (take (end - start) (drop start block))

-- The end of a granule: the start of the next one in the same block, or the end of the block.
unfoldable pub granule_end : Option Mark → ℕ → ℕ → ℕ
granule_end none block_offset block_length = block_length
granule_end (some next) block_offset block_length =
    if next.block_offset == block_offset then next.decompressed_offset else block_length

-- `decompress` is lz4's `decompress_size_prepended`.
module _ {T : Type 0} (prim : Primitive T) (decompress : List ℕ → Option (List ℕ)) where
  decoded : Option T → List T → Result ReadError (List T)
  decoded none vs = panic
  decoded (some v) vs = ok (v ∷ vs)

  -- `.map(T::decode_le).collect()`.
  unfoldable pub decode_all : List (List ℕ) → Result ReadError (List T)
  unfolding decoded
  decode_all [] = ok []
  decode_all (chunk ∷ chunks) = decode_all chunks >>= λ vs. decoded (prim.decode_le chunk) vs

  -- `[u8 codec_tag][u32 LE compressed_len][compressed bytes]` from the position of the file.
  unfoldable pub load_block : List ℕ → Result ReadError (List ℕ)
  load_block src = do
    (tag, src1) ← read_exact 1 src
    codec ← invalid (Codecs.from_tag (from_le_bytes tag))
    (len_buf, src2) ← read_exact 4 src1
    (compressed, _) ← read_exact (from_le_bytes len_buf) src2
    bytes ← decompressed (decompress compressed)
    invalid (Codecs.decode codec bytes prim.width [])

  -- The decoded block at an offset: the cached one, or the one of the file.
  unfoldable pub block_at : ℕ → List ℕ → Option (ℕ × List ℕ) → Result ReadError (List ℕ)
  block_at offset bin none = load_block (drop offset bin)
  block_at offset bin (some (off, block)) =
      if off == offset then ok block else load_block (drop offset bin)

  unfoldable pub read_at : ℕ → Option Mark → ColumnReader → Result ReadError (List T × ColumnReader)
  read_at idx none r = panic
  read_at idx (some mark) r = do
    block ← block_at mark.block_offset r.bin r.cache
    bytes ←
        slice mark.decompressed_offset
          (granule_end (get_elem? r.marks (suc idx)) mark.block_offset (length block)) block
    values ← decode_all (chunks_exact prim.width bytes)
    ok (values, record { bin = r.bin; marks = r.marks; cache = some (mark.block_offset, block) })

  -- The values of a granule, and the reader with its block in the cache.
  unfoldable pub read_granule : ℕ → ColumnReader → Result ReadError (List T × ColumnReader)
  read_granule idx r = read_at idx (get_elem? r.marks idx) r
