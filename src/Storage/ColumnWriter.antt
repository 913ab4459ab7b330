-- ===== src/Storage/ColumnWriter.antt =====
-- tinyolap/src/storage/column_writer.rs: the values of a column into blocks and marks. The files
-- are the bytes written to them.
pub mod Bytes
pub mod Bounds
use tiny_olap.Base.{
  ℕ, ◌+◌, ◌*◌, ◌%◌, List, [], ◌∷◌, ◌++◌, Bool, ltb, leb, ◌==◌, Option, none, some, length, is_empty,
  if◌then◌else◌, Result, ok, ◌>>=◌,
}
use tiny_olap.Base.Words.{word_mod, to_le_bytes}
use tiny_olap.Encoding.Error.{EncodingError}
use tiny_olap.Encoding.Primitive.{Primitive}
use tiny_olap.Encoding.Codec as Codecs
use tiny_olap.Encoding.Codec.{Codec}
use tiny_olap.Storage.Mark.{Mark, to_bytes}

abbrev pub granule_size : ℕ
granule_size = 512

abbrev pub block_buffer_size : ℕ
block_buffer_size = 8192

-- `bin_bytes` is the count of the bytes in `bin`.
pub record Writer (T : Type 0) : Type 0 where
  pub block_values : List T
  pub pending_marks : List Mark
  pub bin : List ℕ
  pub marks : List ℕ
  pub bin_bytes : ℕ
  pub rows_in_current_granule : ℕ
  pub rows_in_current_block : ℕ
  pub min_val : Option T
  pub max_val : Option T

unfoldable pub start : {T : Type 0} → Writer T
start = record {
  block_values = [];
  pending_marks = [];
  bin = [];
  marks = [];
  bin_bytes = 0;
  rows_in_current_granule = 0;
  rows_in_current_block = 0;
  min_val = none;
  max_val = none;
}

-- The pending marks, patched with the offset of their block.
unfoldable pub patch_marks : ℕ → List Mark → List ℕ → List ℕ
patch_marks offset [] out = out
patch_marks offset (m ∷ ms) out = patch_marks offset ms (
    out ++ to_bytes (record { block_offset = offset; decompressed_offset = m.decompressed_offset }))

-- `lt` is the order of `PartialOrd`, `compress` is lz4's `compress_prepend_size`.
module _ {T : Type 0} (prim : Primitive T) (lt : T → T → Bool) (compress : List ℕ → List ℕ) where
  unfoldable pub raw_bytes : List T → List ℕ
  raw_bytes [] = []
  raw_bytes (v ∷ vs) = prim.encode_le v ++ raw_bytes vs

  -- The block behind its tag and length, and its marks.
  unfoldable pub write_block : Codec → List ℕ → Writer T → Writer T
  write_block codec encoded s =
      let compressed = compress encoded in
      record {
        block_values = [];
        pending_marks = [];
        bin =
            s.bin
            ++ (Codecs.tag codec ∷ (to_le_bytes 4 (length compressed % word_mod 4) ++ compressed));
        marks = patch_marks s.bin_bytes s.pending_marks s.marks;
        bin_bytes = s.bin_bytes + (1 + 4 + length compressed);
        rows_in_current_granule = s.rows_in_current_granule;
        rows_in_current_block = 0;
        min_val = s.min_val;
        max_val = s.max_val;
      }

  unfoldable pub flush_block : Codec → Writer T → Result EncodingError (Writer T)
  flush_block codec s =
      if is_empty s.block_values
      then ok s
      else (Codecs.encode codec (raw_bytes s.block_values) prim.width [] >>= λ encoded.
          ok (write_block codec encoded s))

  unfoldable pub lower_bound : Option T → T → T
  lower_bound none v = v
  lower_bound (some m) v = if lt v m then v else m

  unfoldable pub upper_bound : Option T → T → T
  upper_bound none v = v
  upper_bound (some m) v = if lt m v then v else m

  -- The loop up to the test of the granule: a mark before the first row of a granule, the value, and
  -- the bounds.
  unfoldable pub push_row : T → Writer T → Writer T
  push_row v s = record {
    block_values = s.block_values ++ (v ∷ []);
    pending_marks =
        if s.rows_in_current_granule == 0
        then s.pending_marks
          ++ (record {
            block_offset = 0;
            decompressed_offset = s.rows_in_current_block * prim.width;
          }
              ∷ [])
        else s.pending_marks;
    bin = s.bin;
    marks = s.marks;
    bin_bytes = s.bin_bytes;
    rows_in_current_granule = s.rows_in_current_granule + 1;
    rows_in_current_block = s.rows_in_current_block + 1;
    min_val = some (lower_bound s.min_val v);
    max_val = some (upper_bound s.max_val v);
  }

  unfoldable pub close_granule : Writer T → Writer T
  close_granule s = record {
    block_values = s.block_values;
    pending_marks = s.pending_marks;
    bin = s.bin;
    marks = s.marks;
    bin_bytes = s.bin_bytes;
    rows_in_current_granule = 0;
    rows_in_current_block = s.rows_in_current_block;
    min_val = s.min_val;
    max_val = s.max_val;
  }

  -- A block ends only at the end of a granule.
  unfoldable pub end_of_row : Codec → Writer T → Result EncodingError (Writer T)
  end_of_row codec s =
      if s.rows_in_current_granule == granule_size
      then (if leb block_buffer_size (length s.block_values * prim.width)
          then flush_block codec (close_granule s)
          else ok (close_granule s))
      else ok s

  unfoldable pub write_rows : Codec → List T → Writer T → Result EncodingError (Writer T)
  write_rows codec [] s = ok s
  write_rows codec (v ∷ values) s =
      end_of_row codec (push_row v s) >>= λ s'. write_rows codec values s'

  -- The writer after `write_column`, whose bounds are the `ZoneMapEntry`.
  unfoldable pub write_column : Codec → List T → Result EncodingError (Writer T)
  write_column codec values = write_rows codec values start >>= λ s. flush_block codec s
