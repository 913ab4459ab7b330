-- ===== src/Base/Words.antt =====
-- Unsigned words of `w` bytes: `to_le_bytes`, `from_le_bytes` and wrapping arithmetic.
use tiny_olap.Base.Lists.{length, All}
use Prim.Native.Nat.{ℕ, zero, suc, ◌+◌, ◌-◌, ◌*◌, ◌/◌, ◌%◌, ◌^◌, ◌<◌}
use mathlib.Core.Path.{◌≡◌, refl, ap}
use mathlib.Core.List.{List, [], ◌∷◌}
use native.Mathlib.Nat.{pow-suc, mul_comm}
use native.Mathlib.Omega.{arith}

abbrev pub IsByte : ℕ → Type 0
IsByte b = b < 256

-- The number of values of a word of `w` bytes.
abbrev pub word_mod : ℕ → ℕ
word_mod w = 256 ^ w

unfoldable pub to_le_bytes : ℕ → ℕ → List ℕ
to_le_bytes zero n = []
to_le_bytes (suc w) n = (n % 256) ∷ to_le_bytes w (n / 256)

unfoldable pub from_le_bytes : List ℕ → ℕ
from_le_bytes [] = 0
from_le_bytes (b ∷ bs) = b + 256 * from_le_bytes bs

-- `a.wrapping_add(b)` and `a.wrapping_sub(b)` at `w` bytes.
unfoldable pub wrapping_add : ℕ → ℕ → ℕ → ℕ
wrapping_add w a b = (a + b) % word_mod w

unfoldable pub wrapping_sub : ℕ → ℕ → ℕ → ℕ
wrapping_sub w a b = (a + word_mod w - b) % word_mod w

pub length-to_le_bytes : (w n : ℕ) → length (to_le_bytes w n) ≡ w
unfolding to_le_bytes
length-to_le_bytes zero n = refl
length-to_le_bytes (suc w) n = ap suc (length-to_le_bytes w (n / 256))

pub to_le_bytes-IsByte : (w n : ℕ) → All IsByte (to_le_bytes w n)
unfolding to_le_bytes
to_le_bytes-IsByte zero n = tt
to_le_bytes-IsByte (suc w) n = (omega arith, to_le_bytes-IsByte w (n / 256))

word_mod-suc : (w : ℕ) → word_mod (suc w) ≡ 256 * word_mod w
word_mod-suc w = simp (pow-suc, mul_comm)

pub word_mod-pos : (w : ℕ) → 0 < word_mod w
word_mod-pos zero = omega arith
word_mod-pos (suc w) = omega (arith, word_mod-suc w, word_mod-pos w)

pub from_le_bytes-lt : (bs : List ℕ) → All IsByte bs → from_le_bytes bs < word_mod (length bs)
unfolding from_le_bytes
from_le_bytes-lt [] h = omega arith
from_le_bytes-lt (b ∷ bs) h = omega (arith, word_mod-suc (length bs), from_le_bytes-lt bs h.1, h.0)

-- A word read back from its own bytes.
pub from_le_bytes-to_le_bytes : (w n : ℕ) → n < word_mod w → from_le_bytes (to_le_bytes w n) ≡ n
unfolding from_le_bytes to_le_bytes
from_le_bytes-to_le_bytes zero n h = omega arith
from_le_bytes-to_le_bytes (suc w) n h =
    omega (arith, from_le_bytes-to_le_bytes w (n / 256) (omega (arith, word_mod-suc w)))

low_byte : (b n : ℕ) → b < 256 → (b + 256 * n) % 256 ≡ b
low_byte b n h = omega arith

high_bytes : (b n : ℕ) → b < 256 → (b + 256 * n) / 256 ≡ n
high_bytes b n h = omega arith

-- Bytes written back from the word that they hold.
pub to_le_bytes-from_le_bytes :
    (w : ℕ) (bs : List ℕ) → All IsByte bs → length bs ≡ w → to_le_bytes w (from_le_bytes bs) ≡ bs
unfolding from_le_bytes to_le_bytes
to_le_bytes-from_le_bytes zero [] h e = refl
to_le_bytes-from_le_bytes zero (b ∷ bs) h e = absurd (omega arith)
to_le_bytes-from_le_bytes (suc w) [] h e = absurd (omega arith)
to_le_bytes-from_le_bytes (suc w) (b ∷ bs) h e =
    rw (low_byte b (from_le_bytes bs) h.0, high_bytes b (from_le_bytes bs) h.0)
      (ap (λ t. b ∷ t) (to_le_bytes-from_le_bytes w bs h.1 (omega arith)))

pub wrapping_sub-lt : (w a b : ℕ) → wrapping_sub w a b < word_mod w
unfolding wrapping_sub
wrapping_sub-lt w a b = grind (arith, word_mod-pos)

-- Adding the difference back gives the word itself, at every width.
pub wrapping_add-wrapping_sub :
    (w a b : ℕ) → a < word_mod w → b < word_mod w → wrapping_add w b (wrapping_sub w a b) ≡ a
unfolding wrapping_add wrapping_sub
wrapping_add-wrapping_sub w a b ha hb = grind arith
