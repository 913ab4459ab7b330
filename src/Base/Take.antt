-- ===== src/Base/Take.antt =====
-- The first elements of appended lists.
use tiny_olap.Base.Lists.{length, take}
use Prim.Native.Nat.{ℕ, zero, suc, ◌+◌, ◌≤◌}
use mathlib.Core.Path.{◌≡◌, refl, ap}
use mathlib.Core.List.{List, [], ◌∷◌, ◌++◌}
use native.Mathlib.Omega.{arith}

module _ {ℓ} {A : Type ℓ} where
  pub take-nil : (n : ℕ) → take {A = A} n [] ≡ []
  take-nil zero = refl
  take-nil (suc n) = refl

  pub take_inside : (n : ℕ) (xs ys : List A) → n ≤ length xs → take n (xs ++ ys) ≡ take n xs
  take_inside zero xs ys h = refl
  take_inside (suc n) [] ys h = absurd (omega arith)
  take_inside (suc n) (x ∷ xs) ys h = ap (λ t. x ∷ t) (take_inside n xs ys (omega arith))

  pub take_past :
      (n k : ℕ) (xs ys : List A) → length xs + k ≡ n → take n (xs ++ ys) ≡ xs ++ take k ys
  take_past n k [] ys h = let same : n ≡ k = omega (arith, h) in rw same refl
  take_past zero k (x ∷ xs) ys h = absurd (omega arith)
  take_past (suc n) k (x ∷ xs) ys h = ap (λ t. x ∷ t) (take_past n k xs ys (omega arith))
