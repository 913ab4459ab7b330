-- ===== src/Storage.antt =====
-- tinyolap/src/storage: the files of a part.
pub mod Mark
pub mod ColumnReader
pub mod ColumnWriter
pub mod ZoneMapFile
mod Examples
