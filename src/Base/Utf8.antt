-- ===== src/Base/Utf8.antt =====
-- `std::str::from_utf8`: which byte lists are text.
use tiny_olap.Base.Tests.{leb, ◌==◌, if◌then◌else◌}
use Prim.Native.Nat.{ℕ, zero, suc}
use mathlib.Core.Bool.{Bool, true, false, ◌&&◌}
use mathlib.Core.List.{List, [], ◌∷◌}

record Expect : Type 0 where
  left : ℕ
  low : ℕ
  high : ℕ
  legal : Bool

between : ℕ → ℕ → ℕ → Bool
between lo hi b = leb lo b && leb b hi

abbrev tail_of : ℕ → ℕ → ℕ → Expect
tail_of n lo hi = record { left = n; low = lo; high = hi; legal = true }

-- What follows a first byte: how many bytes are left, and the range of the next one.
first_byte : ℕ → Expect
first_byte b =
    if between 0 0x7f b
    then tail_of 0 0x80 0xbf
    else if between 0xc2 0xdf b
    then tail_of 1 0x80 0xbf
    else if b == 0xe0
    then tail_of 2 0xa0 0xbf
    else if b == 0xed
    then tail_of 2 0x80 0x9f
    else if between 0xe1 0xef b
    then tail_of 2 0x80 0xbf
    else if b == 0xf0
    then tail_of 3 0x90 0xbf
    else if between 0xf1 0xf3 b
    then tail_of 3 0x80 0xbf
    else if b == 0xf4
    then tail_of 3 0x80 0x8f
    else record { left = 0; low = 0; high = 0; legal = false }

next_byte : ℕ → ℕ → ℕ → ℕ → Expect
next_byte zero lo hi b = first_byte b
next_byte (suc n) lo hi b = record { left = n; low = 0x80; high = 0xbf; legal = between lo hi b }

scan : ℕ → ℕ → ℕ → List ℕ → Bool
scan left lo hi [] = left == 0
scan left lo hi (b ∷ bs) = let e = next_byte left lo hi b in e.legal && scan e.left e.low e.high bs

unfoldable pub is_utf8 : List ℕ → Bool
unfolding scan next_byte first_byte between
is_utf8 bs = scan 0 0x80 0xbf bs
