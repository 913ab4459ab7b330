-- ===== src/Storage/Examples.antt =====
-- Concrete runs of the writers, and their theorems at concrete inputs.
use tiny_olap.Base.{◌<◌, ℕ, List, [], ◌∷◌, ◌≡◌, refl, ltb, All, ok, ◌>>=◌, map, flatten, arith}
use tiny_olap.Base.Words.{word_mod, to_le_bytes}
use tiny_olap.Encoding.Primitive.{unsigned, unsigned-IsLawful}
use tiny_olap.Encoding.Delta.RoundTrip.{two}
use tiny_olap.Encoding.Plain as Plain
use tiny_olap.Encoding.Codec as Codecs
use tiny_olap.Encoding.Codec.{plain, delta}
use tiny_olap.Storage.Mark.{Mark, to_bytes, read_all}
use tiny_olap.Storage.Mark.RoundTrip.{read_all-to_bytes}
use tiny_olap.Storage.ColumnWriter.{
  Writer, start, patch_marks, raw_bytes, write_block, flush_block, lower_bound, upper_bound,
  push_row, end_of_row, write_rows, write_column,
}
use tiny_olap.Storage.ColumnWriter.Bounds.{IsOrder, InBounds, write_column-InBounds}
use tiny_olap.Base.{◌+◌, ◌*◌, Option, some, length, get_elem?}
use tiny_olap.Storage.ColumnReader.{ColumnReader, open_column, granule_count, read_granule}
use tiny_olap.Storage.ColumnReader.Granules.{granules_of, cut}
use tiny_olap.Storage.ColumnReader.RoundTrip.{
  opened, granule_count-write_column, read_granule-write_column,
}
use tiny_olap.Base.Utf8.{is_utf8}
use tiny_olap.Storage.ZoneMapFile.{EncodedZoneMapEntry, headers_size, write_zone_map, read_zone_map}
use tiny_olap.Storage.ZoneMapFile.RoundTrip.{IsEntry, zone_map_of, read_zone_map-write_zone_map}

abbrev two_marks : List Mark
two_marks =
    record { block_offset = 0; decompressed_offset = 0 }
    ∷ record { block_offset = 0; decompressed_offset = 1024 }
    ∷ []

read_all-to_bytes_example : read_all (flatten (map to_bytes two_marks)) ≡ two_marks
read_all-to_bytes_example = read_all-to_bytes two_marks (
  record { block_fits = omega arith; offset_fits = omega arith },
  (record { block_fits = omega arith; offset_fits = omega arith }, tt),
)

-- No compression.
abbrev stored : List ℕ → List ℕ
stored bytes = bytes

ltb-IsOrder : IsOrder ltb
ltb-IsOrder = record {
  irreflexive = λ a. ground arith;
  asymmetric = λ a b h. ground arith;
  not_below = λ a b c h k. ground arith;
}

u16_width : (unsigned 2).width ≡ 2
unfolding unsigned
u16_width = refl

abbrev values : List ℕ
values = 7 ∷ 3 ∷ 9 ∷ []

write_column-InBounds_example :
    (s : Writer ℕ) × (write_column (unsigned 2) ltb stored delta values ≡ ok s)
    × All (InBounds ltb s.min_val s.max_val) values
write_column-InBounds_example =
    write_column-InBounds (unsigned 2) ltb stored ltb-IsOrder (λ v. v < word_mod 2)
      (unsigned-IsLawful 2 (omega arith)) two u16_width delta values

written_file :
    (write_column (unsigned 2) ltb stored plain values >>= λ s. ok s.bin)
    ≡ ok (0 ∷ 6 ∷ 0 ∷ 0 ∷ 0 ∷ 7 ∷ 0 ∷ 3 ∷ 0 ∷ 9 ∷ 0 ∷ [])
unfolding write_column write_rows start push_row end_of_row flush_block write_block raw_bytes
    unsigned to_le_bytes Codecs.encode Codecs.tag Plain.encode patch_marks lower_bound upper_bound
written_file = refl

-- The bounds 3 and 5 of an i64 column "x".
abbrev x_entry : EncodedZoneMapEntry
x_entry = record {
  col_name = 120 ∷ [];
  type_tag = 4;
  entry = record {
    min_bytes = 3 ∷ 0 ∷ 0 ∷ 0 ∷ 0 ∷ 0 ∷ 0 ∷ 0 ∷ [];
    max_bytes = 5 ∷ 0 ∷ 0 ∷ 0 ∷ 0 ∷ 0 ∷ 0 ∷ 0 ∷ [];
  };
}

x_entry-IsEntry : IsEntry x_entry
unfolding is_utf8
x_entry-IsEntry = record {
  text = refl;
  short = omega arith;
  tag_byte = omega arith;
  min_length = refl;
  max_length = refl;
}

one_fits : 3 + headers_size (x_entry ∷ []) + 16 * 1 < word_mod 8
unfolding headers_size
one_fits = omega arith

read_zone_map-write_zone_map_example :
    read_zone_map (write_zone_map (x_entry ∷ [])) ≡ ok (zone_map_of (x_entry ∷ []) [])
read_zone_map-write_zone_map_example =
    read_zone_map-write_zone_map (x_entry ∷ []) (x_entry-IsEntry, tt) (omega arith) one_fits

-- The writer after `values` as a plain column.
abbrev column_writer : Writer ℕ
column_writer = record {
  block_values = [];
  pending_marks = [];
  bin = 0 ∷ 6 ∷ 0 ∷ 0 ∷ 0 ∷ 7 ∷ 0 ∷ 3 ∷ 0 ∷ 9 ∷ 0 ∷ [];
  marks = to_bytes (record { block_offset = 0; decompressed_offset = 0 });
  bin_bytes = 11;
  rows_in_current_granule = 3;
  rows_in_current_block = 0;
  min_val = some 3;
  max_val = some 9;
}

column_written : write_column (unsigned 2) ltb stored plain values ≡ ok column_writer
unfolding write_column write_rows start push_row end_of_row flush_block write_block raw_bytes
    unsigned to_le_bytes Codecs.encode Codecs.tag Plain.encode patch_marks lower_bound upper_bound
column_written = refl

abbrev loaded : List ℕ → Option (List ℕ)
loaded bytes = some bytes

few_rows : length values * (unsigned 2).width < word_mod 8
unfolding unsigned
few_rows = omega arith

first_granule : get_elem? (granules_of values) 0 ≡ some values
unfolding granules_of cut
first_granule = refl

granule_count-write_column_example :
    granule_count (open_column column_writer.bin column_writer.marks) ≡ length (granules_of values)
granule_count-write_column_example =
    granule_count-write_column (unsigned 2) ltb stored loaded (λ bytes. refl) (λ v. v < word_mod 2)
      (unsigned-IsLawful 2 (omega arith)) two u16_width plain values column_writer column_written
      (omega arith) few_rows

values_fit : All (λ v. v < word_mod 2) values
values_fit = ground arith

read_granule-write_column_example :
    (r' : ColumnReader) × (read_granule
        (unsigned 2)
        loaded
        0
        (open_column column_writer.bin column_writer.marks)
      ≡ ok (values, r'))
read_granule-write_column_example =
    read_granule-write_column (unsigned 2) ltb stored loaded (λ bytes. refl) (λ v. v < word_mod 2)
      (unsigned-IsLawful 2 (omega arith)) two u16_width plain values column_writer column_written
      (omega arith) few_rows values_fit (open_column column_writer.bin column_writer.marks) opened 0
      values first_granule
