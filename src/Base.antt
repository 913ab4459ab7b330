-- ===== src/Base.antt =====
-- What the modules share: names of the libraries, Boolean tests, lists over the native numbers,
-- little-endian words and the outcome of a Rust call.
mod Tests
mod Lists
mod Outcome
mod Take
pub mod Words
pub mod Utf8
pub mod Int
pub use Tests.*
unfoldable pub use Lists.*
pub use Outcome.*
pub use Take.*
pub use Prim.Native.Nat.{ℕ, zero, suc, ◌+◌, ◌-◌, ◌*◌, ◌/◌, ◌%◌, ◌^◌, ◌≤◌, ◌<◌}
pub use mathlib.Core.Path.{◌≡◌, refl, sym, ap, ◌∙◌}
pub use mathlib.Core.Logic.{◌≢◌, ◌↔◌, ◌⊎◌, inl, inr}
pub use mathlib.Core.Bool.{Bool, true, false, not, ◌&&◌, ◌||◌}
pub use mathlib.Core.Option.{Option, none, some}
pub use mathlib.Core.List.{List, [], ◌∷◌, ◌++◌, map, append-nil, append_assoc}
pub use native.Mathlib.Omega.{arith}
