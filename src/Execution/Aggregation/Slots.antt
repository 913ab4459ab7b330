-- ===== src/Execution/Aggregation/Slots.antt =====
-- The vectors of the accumulators: one slot per group.
pub mod Rows
use tiny_olap.Base.{
  ℕ, zero, suc, ◌-◌, ◌<◌, ◌≡◌, refl, ap, sym, ◌∙◌, inl, inr, true, false, List, [], ◌∷◌, ◌++◌, ltb,
  ◌==◌, ==_iff, if◌then◌else◌, length, replicate, Option, none, some, get_elem?, All, Bool-cases,
  Result, ok, err, panic, stuck, ◌>>=◌, arith,
}
use tiny_olap.Execution.Batch.{ExecutionError, Outcome}

module _ {A : Type 0} where
  -- `if v.len() < n { v.resize(n, default) }`.
  unfoldable pub resize : ℕ → A → List A → List A
  resize n default xs = if ltb (length xs) n then xs ++ replicate (n - length xs) default else xs

  -- `v[i]`.
  unfoldable pub at : List A → ℕ → Outcome A
  at [] i = panic
  at (x ∷ xs) zero = ok x
  at (x ∷ xs) (suc i) = at xs i

  -- `v[i] = f(v[i])`.
  unfoldable pub modify : (A → A) → ℕ → List A → Outcome (List A)
  modify f i [] = panic
  modify f zero (x ∷ xs) = ok (f x ∷ xs)
  modify f (suc i) (x ∷ xs) = modify f i xs >>= λ ys. ok (x ∷ ys)

module _ {A V : Type 0} (f : A → V → A) where
  -- `for (i, &gi) in group_indices.iter().enumerate() { v[gi] = f(v[gi], arr.value(i)) }`.
  unfoldable pub each_row : List ℕ → List V → List A → Outcome (List A)
  each_row [] vs xs = ok xs
  each_row (gi ∷ gis) [] xs = panic
  each_row (gi ∷ gis) (v ∷ vs) xs = modify (λ a. f a v) gi xs >>= λ ys. each_row gis vs ys
