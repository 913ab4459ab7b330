-- ===== src/Execution/Aggregation/Count/PerGroup.antt =====
-- A count accumulator holds, for each group, the number of its rows.
use tiny_olap.Base.{
  ℕ, zero, suc, ◌+◌, ◌%◌, ◌<◌, ◌≡◌, refl, ap, sym, ◌∙◌, inl, inr, true, List, [], ◌∷◌, ◌==◌, ==_iff,
  length, get_elem?, All, Bool-cases, ok, err, panic, stuck, ◌>>=◌, Option, some, if◌then◌else◌,
  arith,
}
use tiny_olap.Base.Words.{word_mod, wrapping_add}
use tiny_olap.Execution.Batch.{Outcome}
use tiny_olap.Execution.Aggregation.{RecordBatch, settle}
use tiny_olap.Execution.Aggregation.Slots.{resize, modify, each_row}
use tiny_olap.Execution.Aggregation.Slots.Rows.{
  foldl, group_values, modify_inside, each_row-group_values, start_at, get_elem?-resize,
  length-resize, All-below,
}
use tiny_olap.Execution.Aggregation.Count.{
  CountAccumulator, with_counts, ensure_capacity, count_rows, count_groups, update,
}
use native.Mathlib.Nat.{mod-add-mod, mod-eq_of_lt, mod-lt}

-- The number of rows of a group.
unfoldable pub occurrences : ℕ → List ℕ → ℕ
occurrences g [] = 0
occurrences g (gi ∷ gis) = if gi == g then suc (occurrences g gis) else occurrences g gis

occurrences-single : (gis : List ℕ) → All (λ gi. gi < 1) gis → occurrences 0 gis ≡ length gis
unfolding occurrences
occurrences-single [] all = refl
occurrences-single (gi ∷ gis) (first, all) =
    let is_zero : (gi == 0) ≡ true = ground arith in
    rw is_zero (ap suc (occurrences-single gis all))

same_steps :
    (gis : List ℕ) (m : Outcome (List ℕ))
    → ((cs : List ℕ) → count_rows gis cs ≡ each_row (λ c _. wrapping_add 8 c 1) gis gis cs)
    → (m >>= λ cs. count_rows gis cs)
      ≡ (m >>= λ cs. each_row (λ c _. wrapping_add 8 c 1) gis gis cs)
same_steps gis (ok cs) same = same cs
same_steps gis (err e) same = refl
same_steps gis panic same = refl
same_steps gis stuck same = refl

count_rows-each_row :
    (gis counts : List ℕ)
    → count_rows gis counts ≡ each_row (λ c _. wrapping_add 8 c 1) gis gis counts
unfolding count_rows each_row
count_rows-each_row [] counts = refl
count_rows-each_row (gi ∷ gis) counts =
    same_steps gis (modify (λ c. wrapping_add 8 c 1) gi counts) (λ cs. count_rows-each_row gis cs)

-- The counts wrap at 2 ^ 64.
counted :
    (g c : ℕ) (gis vs : List ℕ)
    → length gis ≡ length vs
    → c < word_mod 8
    → foldl (λ c _. wrapping_add 8 c 1) c (group_values g gis vs)
      ≡ (c + occurrences g gis) % word_mod 8
unfolding group_values occurrences wrapping_add
counted g c [] vs e fits = let same : c + 0 ≡ c = omega arith in rw same (sym (mod-eq_of_lt fits))
counted g c (gi ∷ gis) [] e fits = absurd (omega arith)
counted g c (gi ∷ gis) (v ∷ vs) e fits = elim (Bool-cases (gi == g)) [
  | inl mine ↦
      let same : c + 1 + occurrences g gis ≡ c + suc (occurrences g gis) = omega arith in
      rw mine (
        counted g ((c + 1) % word_mod 8) gis vs (omega arith) (mod-lt (c + 1) (omega arith))
        ∙ mod-add-mod (c + 1) (word_mod 8) (occurrences g gis)
        ∙ ap (λ n. n % word_mod 8) same)
  | inr other ↦ rw other (counted g c gis vs (omega arith) fits)
]

start-IsWord : (xs : List ℕ) (g : ℕ) → All (λ c. c < word_mod 8) xs → start_at 0 xs g < word_mod 8
unfolding start_at
start-IsWord [] g words = omega arith
start-IsWord (x ∷ xs) zero (first, words) = first
start-IsWord (x ∷ xs) (suc g) (first, words) = start-IsWord xs g words

count_groups-occurrences :
    (gis : List ℕ) (n : ℕ) (xs : List ℕ) (g : ℕ)
    → All (λ c. c < word_mod 8) xs
    → All (λ gi. gi < n) gis
    → g < n
    → (ys : List ℕ) × (count_groups gis n (resize n 0 xs) ≡ ok ys)
      × (get_elem? ys g ≡ some ((start_at 0 xs g + occurrences g gis) % word_mod 8))
unfolding count_groups
count_groups-occurrences gis n xs g words inside bound = elim (Bool-cases (n == 1)) [
  | inl single ↦
      let one : n ≡ 1 = (==_iff n 1).0 single in
      let none_else : g ≡ 0 = omega arith in
      let (ys, e, value) = only n xs single in
      (ys, rw single e, rw (none_else, occurrences-single gis (rw one at inside)) value)
  | inr several ↦
      let start = resize n 0 xs in
      let (ys, e, _, folds) =
        each_row-group_values (λ c _. wrapping_add 8 c 1) gis gis start
          (All-below n (length start) gis (length-resize n 0 xs) inside) (omega arith) in
      (
        ys,
        rw (several, count_rows-each_row gis start) e,
        folds g (start_at 0 xs g) (get_elem?-resize n 0 xs g bound)
            ∙ ap some (counted g (start_at 0 xs g) gis gis refl (start-IsWord xs g words)),
      )
]
  where
    only :
        (n : ℕ) (xs : List ℕ)
        → (n == 1) ≡ true
        → (ys : List ℕ) × (modify (λ c. wrapping_add 8 c (length gis)) 0 (resize n 0 xs) ≡ ok ys)
          × (get_elem? ys 0 ≡ some ((start_at 0 xs 0 + length gis) % word_mod 8))
    only n xs single =
        let one : n ≡ 1 = (==_iff n 1).0 single in
        let (ys, e, _, own, _) =
          modify_inside (λ c. wrapping_add 8 c (length gis)) 0 (resize n 0 xs)
            (omega (arith, length-resize n 0 xs)) in
        (
          ys,
          e,
          unfold wrapping_add in own (start_at 0 xs 0) (get_elem?-resize n 0 xs 0 (omega arith)),
        )

-- With group indices below the number of groups, `update` succeeds on every batch and adds to the
-- count of each group the number of its rows, modulo 2 ^ 64, with one group as with several.
pub update-occurrences :
    {Col : Type 0} (downcast_u64 : Col → Option (List ℕ)) (u64_array : List ℕ → Col)
    (batch : RecordBatch Col) (gis : List ℕ) (n : ℕ) (s : CountAccumulator) (g : ℕ)
    → All (λ c. c < word_mod 8) s.counts
    → All (λ gi. gi < n) gis
    → g < n
    → (ys : List ℕ) × (update downcast_u64 u64_array batch gis n s ≡ (ok tt, with_counts s ys))
      × (get_elem? ys g ≡ some ((start_at 0 s.counts g + occurrences g gis) % word_mod 8))
unfolding update ensure_capacity settle
update-occurrences downcast_u64 u64_array batch gis n s g words inside bound =
    let (ys, e, value) = count_groups-occurrences gis n s.counts g words inside bound in
    (ys, rw e refl, value)
