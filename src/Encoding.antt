-- ===== src/Encoding.antt =====
-- tinyolap/src/encoding: the codecs of column data, over byte lists.
pub mod Error
pub mod Plain
pub mod Delta
pub mod Rle
pub mod Strings
pub mod Codec
pub mod Primitive
mod Examples
