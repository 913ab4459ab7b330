-- ===== src/Encoding/Plain.antt =====
-- tinyolap/src/encoding/plain.rs: bytes copied through unchanged.
use tiny_olap.Base.{ℕ, List, ◌++◌, ◌%◌, ◌==◌, if◌then◌else◌, not, length, ok, err}
use tiny_olap.Encoding.Error.{Output, truncated, unsupported_stride}

-- The `debug_assert!` on the stride is off in a release build.
unfoldable pub encode : List ℕ → ℕ → List ℕ → Output
encode src stride out = ok (out ++ src)

unfoldable pub decode : List ℕ → ℕ → List ℕ → Output
decode src stride out =
    if stride == 0
    then err (unsupported_stride stride)
    else if not (length src % stride == 0)
    then err truncated
    else ok (out ++ src)
