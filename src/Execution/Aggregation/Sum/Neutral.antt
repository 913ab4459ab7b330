-- ===== src/Execution/Aggregation/Sum/Neutral.antt =====
-- Sums that a default leaves as they are, under resizing and under the loop over the rows.
use tiny_olap.Base.{
  ℕ, zero, suc, ◌-◌, ◌≡◌, refl, ap, ◌∙◌, inl, inr, List, [], ◌∷◌, ◌==◌, ltb, replicate, length,
  All-append, ◌++◌, All, Bool-cases, ok, first_step,
}
use tiny_olap.Execution.Aggregation.Slots.{resize, modify, each_row}
use tiny_olap.Execution.Aggregation.Slots.Rows.{foldl, group_values}
use tiny_olap.Execution.Aggregation.Sum.{Summable}
use tiny_olap.Execution.Aggregation.Sum.EachRow.{swap_last}
use tiny_olap.Execution.Aggregation.Sum.PerGroup.{IsSummable}

module _ {Col N W : Type 0} (t : Summable Col N W) where
  -- The sums that a default added to them leaves as they are.
  abbrev pub Neutral : W → Type 0
  Neutral a = t.add_assign a t.default ≡ a

module _ {Col N W : Type 0} (t : Summable Col N W) (IsWord : W → Type 0)
    (sums : IsSummable t IsWord) where
  pub Neutral-IsSummable : IsSummable t (Neutral t)
  Neutral-IsSummable = record {
    default_word = sums.add_default t.default sums.default_word;
    add_assoc = sums.add_assoc;
    add_comm = sums.add_comm;
    add_default = λ a e. e;
  }

  add-Neutral : (a b : W) → Neutral t a → Neutral t (t.add_assign a b)
  add-Neutral a b e = swap_last t IsWord sums a b t.default ∙ ap (λ c. t.add_assign c b) e

  fresh_sums :
      (gis : List ℕ) (k g : ℕ) (a : W)
      → Neutral t a
      → foldl t.add_assign a (group_values g gis (replicate k t.default)) ≡ a
  unfolding group_values
  fresh_sums [] k g a word = refl
  fresh_sums (gi ∷ gis) zero g a word = refl
  fresh_sums (gi ∷ gis) (suc k) g a word = elim (Bool-cases (gi == g)) [
    | inl mine ↦ rw mine (
        ap (λ b. foldl t.add_assign b (group_values g gis (replicate k t.default))) word
        ∙ fresh_sums gis k g a word)
    | inr other ↦ rw other (fresh_sums gis k g a word)
  ]

  padded_sums :
      (gis : List ℕ) (k g : ℕ) (a : W) (xs : List W)
      → Neutral t a
      → foldl t.add_assign a (group_values g gis (xs ++ replicate k t.default))
        ≡ foldl t.add_assign a (group_values g gis xs)
  unfolding group_values
  padded_sums [] k g a xs word = refl
  padded_sums (gi ∷ gis) k g a [] word = fresh_sums (gi ∷ gis) k g a word
  padded_sums (gi ∷ gis) k g a (x ∷ xs) word = elim (Bool-cases (gi == g)) [
    | inl mine ↦ rw mine (padded_sums gis k g (t.add_assign a x) xs (add-Neutral a x word))
    | inr other ↦ rw other (padded_sums gis k g a xs word)
  ]

  pub resized_sums :
      (gis : List ℕ) (k g : ℕ) (a : W) (xs : List W)
      → Neutral t a
      → foldl t.add_assign a (group_values g gis (resize k t.default xs))
        ≡ foldl t.add_assign a (group_values g gis xs)
  unfolding resize
  resized_sums gis k g a xs word = elim (Bool-cases (ltb (length xs) k)) [
    | inl short ↦ rw short (padded_sums gis (k - length xs) g a xs word)
    | inr long ↦ rw long refl
  ]

  replicate-Neutral : (k : ℕ) → All (Neutral t) (replicate k t.default)
  replicate-Neutral zero = tt
  replicate-Neutral (suc k) = (Neutral-IsSummable.default_word, replicate-Neutral k)

  pub resize-Neutral :
      (k : ℕ) (xs : List W) → All (Neutral t) xs → All (Neutral t) (resize k t.default xs)
  unfolding resize
  resize-Neutral k xs words = elim (Bool-cases (ltb (length xs) k)) [
    | inl short ↦ rw short (
        All-append (Neutral t) xs (replicate (k - length xs) t.default) words
          (replicate-Neutral (k - length xs)))
    | inr long ↦ rw long words
  ]

  modify-Neutral :
      (x : W) (l : ℕ) (ps qs : List W)
      → modify (λ p. t.add_assign p x) l ps ≡ ok qs
      → All (Neutral t) ps
      → All (Neutral t) qs
  unfolding modify
  modify-Neutral x l [] qs h words = cc
  modify-Neutral x zero (p ∷ ps) qs h (word, words) =
      let changed : qs ≡ t.add_assign p x ∷ ps = cc in rw changed (add-Neutral p x word, words)
  modify-Neutral x (suc l) (p ∷ ps) qs h (word, words) =
      let (rest, e, given) =
        first_step (modify (λ p. t.add_assign p x) l ps) (λ ys. ok (p ∷ ys)) qs h in
      let changed : qs ≡ p ∷ rest = cc in rw changed (word, modify-Neutral x l ps rest e words)

  pub each_row-Neutral :
      (ls : List ℕ) (vs : List N) (ps qs : List W)
      → each_row (λ a v. t.add_assign a (t.into_widened v)) ls vs ps ≡ ok qs
      → All (Neutral t) ps
      → All (Neutral t) qs
  unfolding each_row
  each_row-Neutral [] vs ps qs h words = let same : ps ≡ qs = cc in rw (← same) words
  each_row-Neutral (l ∷ ls) [] ps qs h words = cc
  each_row-Neutral (l ∷ ls) (v ∷ vs) ps qs h words =
      let (ps', first, rest) =
        first_step (modify (λ p. t.add_assign p (t.into_widened v)) l ps)
          (λ ys. each_row (λ a v. t.add_assign a (t.into_widened v)) ls vs ys) qs h in
      each_row-Neutral ls vs ps' qs rest (modify-Neutral (t.into_widened v) l ps ps' first words)
