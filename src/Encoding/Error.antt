-- ===== src/Encoding/Error.antt =====
-- tinyolap/src/encoding/mod.rs: `EncodingError`, and the shape of the codec functions.
use tiny_olap.Base.{ℕ, List, Result}

pub data EncodingError : Type 0 where
  truncated bad_header : EncodingError
  unsupported_stride : ℕ → EncodingError
  invalid_utf8 corrupt : EncodingError

-- The bytes of `out` after a call. Where the call fails, the caller drops `out`.
abbrev pub Output : Type 0
Output = Result EncodingError (List ℕ)
