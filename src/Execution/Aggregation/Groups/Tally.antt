-- ===== src/Execution/Aggregation/Groups/Tally.antt =====
-- Rows counted by the index of their group are rows counted by their key.
use tiny_olap.Base.{
  ℕ, zero, suc, ◌+◌, ◌%◌, ◌<◌, ◌≡◌, refl, ap, sym, ◌∙◌, inl, inr, Bool, true, false, List, [], ◌∷◌,
  ◌==◌, ==_iff, bytes_eq, bytes_eq→eq, bytes_eq_refl, length, get_elem?, get_elem?-lt, Option, some,
  All, Bool-cases, if◌then◌else◌, ok,
}
use tiny_olap.Base.Words.{word_mod}
use tiny_olap.Execution.Aggregation.{RecordBatch}
use tiny_olap.Execution.Aggregation.Slots.Rows.{start_at}
use tiny_olap.Execution.Aggregation.Count.{CountAccumulator, with_counts, update}
use tiny_olap.Execution.Aggregation.Count.PerGroup.{occurrences, update-occurrences}
use tiny_olap.Execution.Aggregation.Groups.{Row, assign_rows}
use tiny_olap.Execution.Aggregation.Groups.Dense.{
  numbered, length-numbered, IsDistinct, Named, assign_rows-Named, Named-lt,
}

-- The number of rows with a key.
unfoldable pub tally : Row → List Row → ℕ
tally key [] = 0
tally key (row ∷ rows) = let rest = tally key rows in if bytes_eq row key then suc rest else rest

other_key :
    (key : Row) (keys : List Row) (i : ℕ) (row : Row)
    → All (λ k. bytes_eq key k ≡ false) keys
    → get_elem? keys i ≡ some row
    → bytes_eq key row ≡ false
other_key key [] i row others h = cc
other_key key (k ∷ keys) zero row (first, others) h = let same : k ≡ row = cc in rw (← same) first
other_key key (k ∷ keys) (suc i) row (first, others) h = other_key key keys i row others h

unlike : {A : Type 0} (a b : Row) → bytes_eq a b ≡ false → a ≡ b → A
unlike a b differ same = never (bytes_eq b b) (bytes_eq_refl b) (rw same at differ)
  where
    never : {A : Type 0} (c : Bool) → c ≡ true → c ≡ false → A
    never c e e' = cc

-- Distinct keys have one index each.
same_index :
    (keys : List Row) (i j : ℕ) (a : Row)
    → IsDistinct keys
    → get_elem? keys i ≡ some a
    → get_elem? keys j ≡ some a
    → i ≡ j
unfolding IsDistinct
same_index [] i j a distinct hi hj = cc
same_index (k ∷ keys) zero zero a distinct hi hj = refl
same_index (k ∷ keys) zero (suc j) a (others, distinct) hi hj =
    let same : k ≡ a = cc in unlike k a (other_key k keys j a others hj) same
same_index (k ∷ keys) (suc i) zero a (others, distinct) hi hj =
    let same : k ≡ a = cc in unlike k a (other_key k keys i a others hi) same
same_index (k ∷ keys) (suc i) (suc j) a (others, distinct) hi hj =
    ap suc (same_index keys i j a distinct hi hj)

index_test :
    (keys : List Row) (i g : ℕ) (row key : Row)
    → IsDistinct keys
    → get_elem? keys i ≡ some row
    → get_elem? keys g ≡ some key
    → (i == g) ≡ bytes_eq row key
index_test keys i g row key distinct hi hg = elim (Bool-cases (i == g)) [
  | inl mine ↦
      let same : i ≡ g = (==_iff i g).0 mine in
      let is_key : row ≡ key = the_row row key hi (rw same hg) in
      mine ∙ sym (rw is_key (bytes_eq_refl key))
  | inr other ↦ elim (Bool-cases (bytes_eq row key)) [
    | inl equal ↦
        let is_key = bytes_eq→eq row key equal in
        let same = same_index keys i g key distinct (rw (← is_key) hi) hg in
        absurd (clash (i == g) ((==_iff i g).1 same) other)
    | inr differ ↦ other ∙ sym differ
  ]
]
  where
    the_row : {m : Option Row} (a b : Row) → m ≡ some a → m ≡ some b → a ≡ b
    the_row a b e e' = cc

    clash : (c : Bool) → c ≡ true → c ≡ false → ⊥
    clash c e e' = cc

occurrences-tally :
    (keys : List Row) (idxs : List ℕ) (rows : List Row) (g : ℕ) (key : Row)
    → IsDistinct keys
    → Named keys idxs rows
    → get_elem? keys g ≡ some key
    → occurrences g idxs ≡ tally key rows
unfolding Named occurrences tally
occurrences-tally keys [] [] g key distinct named hg = refl
occurrences-tally keys [] (row ∷ rows) g key distinct named hg = absurd named
occurrences-tally keys (idx ∷ idxs) [] g key distinct named hg = absurd named
occurrences-tally keys (idx ∷ idxs) (row ∷ rows) g key distinct (own, named) hg =
    rw
      (
        index_test keys idx g row key distinct own hg,
        occurrences-tally keys idxs rows g key distinct named hg,
      )
      refl

get_elem?-Named :
    (keys : List Row) (idxs : List ℕ) (rows : List Row) (i idx : ℕ) (key : Row)
    → Named keys idxs rows
    → get_elem? idxs i ≡ some idx
    → get_elem? rows i ≡ some key
    → get_elem? keys idx ≡ some key
unfolding Named
get_elem?-Named keys [] rows i idx key named hi hr = cc
get_elem?-Named keys (j ∷ idxs) [] i idx key named hi hr = absurd named
get_elem?-Named keys (j ∷ idxs) (row ∷ rows) zero idx key (own, named) hi hr =
    let same : j ≡ idx = cc in let is_key : row ≡ key = cc in rw (← same, ← is_key) own
get_elem?-Named keys (j ∷ idxs) (row ∷ rows) (suc i) idx key (own, named) hi hr =
    get_elem?-Named keys idxs rows i idx key named hi hr

-- GROUP BY with COUNT on a batch: while there are fewer than 2 ^ 32 rows, the rows get the indices of
-- distinct keys, and for the key of any row the count at the row's index grows by the number of rows
-- of the batch with this key, modulo 2 ^ 64.
pub update-tally :
    {Col : Type 0} (downcast_u64 : Col → Option (List ℕ)) (u64_array : List ℕ → Col)
    (batch : RecordBatch Col) (rows keys : List Row) (s : CountAccumulator) (i idx : ℕ) (key : Row)
    → IsDistinct keys
    → length keys + length rows < word_mod 4
    → All (λ c. c < word_mod 8) s.counts
    → get_elem? rows i ≡ some key
    → get_elem? (assign_rows rows (numbered 0 keys)).0 i ≡ some idx
    → (ys : List ℕ) × (update downcast_u64 u64_array batch
          (assign_rows rows (numbered 0 keys)).0
          (length (assign_rows rows (numbered 0 keys)).1)
          s
        ≡ (ok tt, with_counts s ys))
      × (get_elem? ys idx ≡ some ((start_at 0 s.counts idx + tally key rows) % word_mod 8))
update-tally downcast_u64 u64_array batch rows keys s i idx key distinct few words row_at idx_at =
    let (keys', e, named, distinct') = assign_rows-Named rows keys distinct few in
    let size : length keys' ≡ length (assign_rows rows (numbered 0 keys)).1 =
      sym (length-numbered 0 keys') ∙ ap length (sym e) in
    let idxs = (assign_rows rows (numbered 0 keys)).0 in
    let key_at = get_elem?-Named keys' idxs rows i idx key named idx_at row_at in
    let inside = rw size at (Named-lt keys' idxs rows named) in
    let (ys, done, value) =
      update-occurrences downcast_u64 u64_array batch idxs
        (length (assign_rows rows (numbered 0 keys)).1) s idx words inside
        (rw size at (get_elem?-lt keys' idx key_at)) in
    (
      ys,
      done,
      value
          ∙ ap (λ n. some ((start_at 0 s.counts idx + n) % word_mod 8))
              (occurrences-tally keys' idxs rows idx key distinct' named key_at),
    )
