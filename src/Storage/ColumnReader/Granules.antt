-- ===== src/Storage/ColumnReader/Granules.antt =====
-- The granules of a column: its rows in groups of GRANULE_SIZE, the last one shorter.
use tiny_olap.Base.{
  ℕ, zero, suc, ◌<◌, ◌≤◌, List, [], ◌∷◌, ◌++◌, ◌≡◌, refl, ap, ◌∙◌, length, length-append, take,
  drop, take_prefix, drop_prefix, length-drop, take-append-drop, flatten, All, append_assoc, arith,
}
use tiny_olap.Storage.ColumnWriter.{granule_size}

-- The granule that is not yet whole, when it has a row.
abbrev pub open_granule {ℓ} : {T : Type ℓ} → List T → List (List T)
open_granule [] = []
open_granule (v ∷ vs) = (v ∷ vs) ∷ []

module _ {T : Type 0} where
  -- The groups of `k` rows of at most `n` rows.
  unfoldable pub cut : ℕ → ℕ → List T → List (List T)
  cut k zero vs = []
  cut k (suc n) [] = []
  cut k (suc n) (v ∷ vs) = take k (v ∷ vs) ∷ cut k n (drop k (v ∷ vs))

  unfoldable pub granules_of : List T → List (List T)
  granules_of values = cut granule_size (length values) values

  cut-nil : (k n : ℕ) → cut k n [] ≡ []
  unfolding cut
  cut-nil k zero = refl
  cut-nil k (suc n) = refl

  cut-open_granule :
      (k n : ℕ) (p : List T) → length p < k → length p ≤ n → cut k n p ≡ open_granule p
  unfolding cut
  cut-open_granule k n [] short enough = cut-nil k n
  cut-open_granule k zero (v ∷ vs) short enough = absurd (omega arith)
  cut-open_granule k (suc n) (v ∷ vs) short enough =
      rw (whole k (v ∷ vs) (omega arith), nothing k (v ∷ vs) (omega arith), cut-nil k n) refl
    where
      whole : (k : ℕ) (xs : List T) → length xs ≤ k → take k xs ≡ xs
      whole zero [] h = refl
      whole zero (x ∷ xs) h = absurd (omega arith)
      whole (suc k) [] h = refl
      whole (suc k) (x ∷ xs) h = ap (λ t. x ∷ t) (whole k xs (omega arith))

      nothing : (k : ℕ) (xs : List T) → length xs ≤ k → drop k xs ≡ []
      nothing zero [] h = refl
      nothing zero (x ∷ xs) h = absurd (omega arith)
      nothing (suc k) [] h = refl
      nothing (suc k) (x ∷ xs) h = nothing k xs (omega arith)

  -- Whole groups and the rows behind them are cut where they were joined.
  pub cut-flatten :
      (k n : ℕ) (gs : List (List T)) (p : List T)
      → 0 < k
      → All (λ g. length g ≡ k) gs
      → length p < k
      → length (flatten gs ++ p) ≤ n
      → cut k n (flatten gs ++ p) ≡ gs ++ open_granule p
  cut-flatten k n [] p pos full short enough = cut-open_granule k n p short enough
  cut-flatten k zero (g ∷ gs) p pos (hg, full) short enough =
      absurd (omega (arith, length-append (g ++ flatten gs) p, length-append g (flatten gs)))
  cut-flatten k (suc n) (g ∷ gs) p pos (hg, full) short enough =
      rw (append_assoc g (flatten gs) p) (
        first_group k n g (flatten gs ++ p) pos hg
        ∙ ap (λ t. g ∷ t)
            (cut-flatten k n gs p pos full short (
              omega (
                arith,
                length-append (g ++ flatten gs) p,
                length-append g (flatten gs),
                length-append (flatten gs) p,
              ))))
    where
      first_group :
          (k n : ℕ) (g rest : List T)
          → 0 < k
          → length g ≡ k
          → cut k (suc n) (g ++ rest) ≡ g ∷ cut k n rest
      first_group k n [] rest pos hg = absurd (omega arith)
      first_group k n (v ∷ vs) rest pos hg =
          unfold cut in rw (take_prefix k (v ∷ vs) rest hg, drop_prefix k (v ∷ vs) rest hg) refl

  -- The granules hold all the rows, in order.
  flatten-cut : (k n : ℕ) (vs : List T) → 0 < k → length vs ≤ n → flatten (cut k n vs) ≡ vs
  unfolding cut
  flatten-cut k zero [] pos h = refl
  flatten-cut k zero (v ∷ vs) pos h = absurd (omega arith)
  flatten-cut k (suc n) [] pos h = refl
  flatten-cut k (suc n) (v ∷ vs) pos h =
      ap (λ t. take k (v ∷ vs) ++ t)
        (flatten-cut k n (drop k (v ∷ vs)) pos (omega (arith, length-drop k (v ∷ vs))))
      ∙ take-append-drop k (v ∷ vs)

  pub flatten-granules_of : (values : List T) → flatten (granules_of values) ≡ values
  unfolding granules_of
  flatten-granules_of values =
      flatten-cut granule_size (length values) values (omega arith) (omega arith)
