-- ===== src/Encoding/Strings.antt =====
-- The codecs of string columns. A Rust string is the list of its UTF-8 bytes.
pub mod Prefixed
pub mod Plain
pub mod Dictionary
