-- ===== src/Lib.antt =====
-- tinyOLAP is a columnar query engine. A statement becomes a logical plan (tinyolap/src/logical_plan),
-- which three rules optimize; lowering makes a physical plan of it (tinyolap/src/physical_plan), whose
-- rules choose the scan; operators (tinyolap/src/execution) run it over parts, whose columns are
-- stored encoded (tinyolap/src/encoding).
--
-- The files follow the source:
--   * Base: shared helpers. A Rust call is a `Result`: a value, an error, a panic, or `stuck` when a
--     loop of the model has used up its fuel. Bytes are natural numbers below 256, words wrap at
--     256 ^ w, integers of any width are their values, floats their bit patterns, names their bytes.
--   * Encoding: the codecs of tinyolap/src/encoding. A loop `while i < src.len()` runs on the length
--     of the slice as fuel, enough since every round takes a byte at least. The decoder of rle adds
--     2 to the stride with the overflow check of a debug build. The allocator is a parameter where the
--     decoder of the dictionary reserves a number of strings that it has read; a refusal aborts,
--     which is a panic of the model. Elsewhere memory is there.
--   * Catalog: tinyolap/src/catalog/schema.rs, the column types and the schema of a table.
--   * Logical: logical_operators.rs (Plan), constant_folding.rs (Folding), type_coercion.rs (Coercion),
--     optimizer.rs and eliminate_true_filter.rs (Optimizer). Meaning says what expressions and plans
--     mean without looking at the rules: And and Or of truth values, comparison of integers, and
--     parameters for all else.
--   * Physical: physical_operators.rs (Plan), lower.rs (Lower), optimizer.rs (Optimizer). The float
--     conversions of `as` and the text of a float are parameters (`Floats`). The text of an integer
--     runs on 20 rounds, the digits of a 64-bit number.
--   * Execution: expr.rs (Predicate), the decision to skip a part of zone_map_scan.rs (ZoneMap), the
--     two scans (Scan), the work source (WorkSource), the filter (Filter), the projection (Project),
--     the limit (Limit) and builder.rs (Builder), which gives the operators as data. The kernels of
--     the arrow crate are a parameter (`Arrow`), what arrow documents of them is the hypothesis
--     `IsArrow`, and the readers of a part are the interface `Storage` of the scans. The skipped parts
--     of one call are passed over by recursion on the work that is left, and the empty batches of the
--     filter by recursion on the batches of the child.
--   * Execution/Aggregation: tinyolap/src/execution/aggregation. count.rs (Count), sum.rs (Sum), min.rs
--     and max.rs (Extremum), avg.rs (Avg), the indices of the groups (Groups), and the two operators
--     (Exec), which are one definition over the method of the accumulators that they call. Slots is
--     the work on the vectors of the accumulators. Integer sums wrap at 2 ^ 64, as they do without
--     overflow checks; the arithmetic of doubles, the arrays of arrow, its row converter and the
--     order in which the iterator of the hash map gives the entries are parameters. A method that
--     returns an error gives the state that it leaves behind as well.
--   * Storage: mark.rs (Mark), column_writer.rs (ColumnWriter), column_reader.rs (ColumnReader) and
--     zone_map.rs (ZoneMapFile). A file is the bytes written to it; lz4 is a parameter, and errors of
--     the file system are left out. The layout of a column file, which links the writer and the
--     reader, is stated apart from both (ColumnReader/Layout, ColumnReader/Granules).
-- The tests and the concrete instances of the theorems stand in the files Examples of the folders, and
-- in Execution/OperatorExamples.
--
-- Not modelled: the files of string columns, the listing of the parts in a directory, the gather
-- operator with its threads and channels, the frontend over the sqlparser crate, the printing of plans,
-- and the command line.
pub mod Base
pub mod Catalog
pub mod Encoding
pub mod Execution
pub mod Logical
pub mod Physical
pub mod Storage
