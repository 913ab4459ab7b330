-- ===== src/Base/Int.antt =====
-- The integers over the native numbers, and their two's complement words.
use tiny_olap.Base.Tests.{ltb, leb, ◌==◌, if◌then◌else◌}
use tiny_olap.Base.Words.{word_mod, word_mod-pos}
use Prim.Native.Nat.{ℕ, suc, ◌+◌, ◌-◌, ◌*◌, ◌≤◌, ◌<◌}
use mathlib.Core.Path.{◌≡◌}
use mathlib.Core.Bool.{Bool}
use native.Mathlib.Omega.{arith}

-- `negsuc n` is -(n + 1).
pub data ℤ : Type 0 where
  pos : ℕ → ℤ
  negsuc : ℕ → ℤ

abbrev pub pos_part : ℤ → ℕ
pos_part (pos n) = n
pos_part (negsuc n) = 0

abbrev pub neg_part : ℤ → ℕ
neg_part (pos n) = 0
neg_part (negsuc n) = suc n

infix 50 ◌≤ℤ◌
abbrev pub ◌≤ℤ◌ : ℤ → ℤ → Type 0
a ≤ℤ b = pos_part a + neg_part b ≤ pos_part b + neg_part a

abbrev pub ltb_ℤ : ℤ → ℤ → Bool
ltb_ℤ a b = ltb (pos_part a + neg_part b) (pos_part b + neg_part a)

abbrev pub leb_ℤ : ℤ → ℤ → Bool
leb_ℤ a b = leb (pos_part a + neg_part b) (pos_part b + neg_part a)

abbrev pub eqb_ℤ : ℤ → ℤ → Bool
eqb_ℤ a b = pos_part a + neg_part b == pos_part b + neg_part a

-- The range of a signed integer of `w` bytes.
pub record IsSigned (w : ℕ) (z : ℤ) : Type 0 where
  pub above : 2 * neg_part z ≤ word_mod w
  pub below : 2 * pos_part z < word_mod w

-- The word of a signed integer, and back.
unfoldable pub to_bits : ℕ → ℤ → ℕ
to_bits w (pos n) = n
to_bits w (negsuc n) = word_mod w - suc n

unfoldable pub of_bits : ℕ → ℕ → ℤ
of_bits w n = if ltb (2 * n) (word_mod w) then pos n else negsuc (word_mod w - suc n)

pub to_bits-lt : (w : ℕ) (z : ℤ) → IsSigned w z → to_bits w z < word_mod w
unfolding to_bits
to_bits-lt w (pos n) h = omega (arith, h.below)
to_bits-lt w (negsuc n) h = omega (arith, h.above, word_mod-pos w)

pub of_bits-to_bits : (w : ℕ) (z : ℤ) → IsSigned w z → of_bits w (to_bits w z) ≡ z
unfolding to_bits of_bits
of_bits-to_bits w (pos n) h = ground (arith, h.below)
of_bits-to_bits w (negsuc n) h = ground (arith, h.above, word_mod-pos w)
