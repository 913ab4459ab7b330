-- ===== src/Execution/Aggregation/Groups/Dense.antt =====
-- The group indices: dense, in the order in which the keys are first met, and each the index of its
-- row's key.
use tiny_olap.Base.{
  ℕ, suc, ◌+◌, ◌%◌, ◌<◌, ◌≤◌, ◌≡◌, refl, ap, ◌∙◌, ◌⊎◌, inl, inr, false, List, [], ◌∷◌, ◌++◌,
  bytes_eq, bytes_eq→eq, length, length-append, get_elem?, get_elem?-append, get_elem?-lt,
  All-append, get_elem?-length, none, some, All, Bool-cases, arith,
}
use tiny_olap.Base.Words.{word_mod}
use tiny_olap.Execution.Aggregation.Groups.{
  Row, GroupMap, find, assign_entry, assign_row, assign_rows,
}
use native.Mathlib.Nat.{mod-eq_of_lt}

-- The keys, each with the next index.
unfoldable pub numbered : ℕ → List Row → GroupMap
numbered n [] = []
numbered n (key ∷ keys) = (key, n) ∷ numbered (n + 1) keys

pub length-numbered : (n : ℕ) (keys : List Row) → length (numbered n keys) ≡ length keys
unfolding numbered
length-numbered n [] = refl
length-numbered n (key ∷ keys) = ap suc (length-numbered (n + 1) keys)

numbered-append :
    (n : ℕ) (keys : List Row) (key : Row)
    → numbered n keys ++ ((key, n + length keys) ∷ []) ≡ numbered n (keys ++ (key ∷ []))
unfolding numbered
numbered-append n [] key = let same : n + 0 ≡ n = omega arith in rw same refl
numbered-append n (k ∷ keys) key =
    let same : n + suc (length keys) ≡ n + 1 + length keys = omega arith in
    rw same (ap (λ t. (k, n) ∷ t) (numbered-append (n + 1) keys key))

-- No key stands in two entries.
unfoldable pub IsNew : Row → List Row → Type 0
IsNew row keys = All (λ key. bytes_eq key row ≡ false) keys

find-numbered :
    (n : ℕ) (keys : List Row) (row : Row)
    → ((i : ℕ) × (find row (numbered n keys) ≡ some (n + i)) × (get_elem? keys i ≡ some row))
      ⊎ ((find row (numbered n keys) ≡ none) × IsNew row keys)
unfolding find numbered IsNew
find-numbered n [] row = inr (refl, tt)
find-numbered n (key ∷ keys) row = elim (Bool-cases (bytes_eq key row)) [
  | inl here ↦
      let same : n ≡ n + 0 = omega arith in
      inl (0, rw here (ap some same), ap some (bytes_eq→eq key row here))
  | inr other ↦ elim (find-numbered (n + 1) keys row) [
    | inl (i, found, key_at) ↦
        let same : n + 1 + i ≡ n + suc i = omega arith in
        inl (suc i, rw other (found ∙ ap some same), key_at)
    | inr (absent, all_new) ↦ inr (rw other absent, (other, all_new))
  ]
]

-- No two keys are the same.
unfoldable pub IsDistinct : List Row → Type 0
IsDistinct [] = Unit
IsDistinct (key ∷ keys) = All (λ k. bytes_eq key k ≡ false) keys × IsDistinct keys

append-IsDistinct :
    (keys : List Row) (row : Row)
    → IsNew row keys
    → IsDistinct keys
    → IsDistinct (keys ++ (row ∷ []))
unfolding IsNew IsDistinct
append-IsDistinct [] row new distinct = (tt, tt)
append-IsDistinct (key ∷ keys) row (other, new) (others, distinct) = (
  All-append (λ k. bytes_eq key k ≡ false) keys (row ∷ []) others (other, tt),
  append-IsDistinct keys row new distinct,
)

-- A row gets the index of its key, which is a new last one or was there.
record Assigned (keys : List Row) (row : Row) : Type 0 where
  pub idx : ℕ
  pub keys' : List Row
  pub given : assign_row row (numbered 0 keys) ≡ (idx, numbered 0 keys')
  pub names : get_elem? keys' idx ≡ some row
  pub kept : (i : ℕ) (key : Row) → get_elem? keys i ≡ some key → get_elem? keys' i ≡ some key
  pub distinct : IsDistinct keys'
  pub growth : length keys' ≤ suc (length keys)

assign_row-numbered :
    (keys : List Row) (row : Row) → IsDistinct keys → length keys < word_mod 4 → Assigned keys row
unfolding assign_row assign_entry
assign_row-numbered keys row distinct few = elim (find-numbered 0 keys row) [
  | inl (i, found, key_at) ↦ record {
    idx = 0 + i;
    keys' = keys;
    given = rw found refl;
    names = let same : 0 + i ≡ i = omega arith in rw same key_at;
    kept = λ i key e. e;
    distinct = distinct;
    growth = omega arith;
  }
  | inr (absent, all_new) ↦
      let fits : length keys % word_mod 4 ≡ length keys = mod-eq_of_lt few in
      let same : length keys ≡ 0 + length keys = omega arith in
      record {
        idx = length keys;
        keys' = keys ++ (row ∷ []);
        given =
            rw (absent, length-numbered 0 keys, fits)
              (ap (λ m. (length keys, m))
                (ap (λ n. numbered 0 keys ++ ((row, n) ∷ [])) same ∙ numbered-append 0 keys row));
        names = get_elem?-length keys row [];
        kept = λ i key e. get_elem?-append keys (row ∷ []) i e;
        distinct = append-IsDistinct keys row all_new distinct;
        growth = omega (arith, length-append keys (row ∷ []));
      }
]

-- Each index names its row.
unfoldable pub Named : List Row → List ℕ → List Row → Type 0
Named keys [] [] = Unit
Named keys [] (row ∷ rows) = ⊥
Named keys (idx ∷ idxs) [] = ⊥
Named keys (idx ∷ idxs) (row ∷ rows) = (get_elem? keys idx ≡ some row) × Named keys idxs rows

assigned :
    (rows keys : List Row)
    → IsDistinct keys
    → length keys + length rows < word_mod 4
    → (keys' : List Row) × ((assign_rows rows (numbered 0 keys)).1 ≡ numbered 0 keys')
      × Named keys' (assign_rows rows (numbered 0 keys)).0 rows
      × IsDistinct keys'
      × ((i : ℕ) (key : Row) → get_elem? keys i ≡ some key → get_elem? keys' i ≡ some key)
unfolding assign_rows Named
assigned [] keys distinct few = (keys, refl, tt, distinct, λ i key e. e)
assigned (row ∷ rows) keys distinct few =
    let one = assign_row-numbered keys row distinct (omega arith) in
    let (keys', e, named, distinct', kept) =
      assigned rows one.keys' one.distinct (omega (arith, one.growth)) in
    (
      keys',
      rw one.given e,
      rw one.given (kept one.idx row one.names, named),
      distinct',
      λ i key found. kept i key (one.kept i key found),
    )

-- While there are fewer than 2 ^ 32 rows, the map after a batch holds distinct keys, numbered in
-- order, and the index of each row is that of its own key.
pub assign_rows-Named :
    (rows keys : List Row)
    → IsDistinct keys
    → length keys + length rows < word_mod 4
    → (keys' : List Row) × ((assign_rows rows (numbered 0 keys)).1 ≡ numbered 0 keys')
      × Named keys' (assign_rows rows (numbered 0 keys)).0 rows
      × IsDistinct keys'
assign_rows-Named rows keys distinct few =
    let (keys', e, named, distinct', _) = assigned rows keys distinct few in
    (keys', e, named, distinct')

-- Indices that name rows lie below the number of keys.
pub Named-lt :
    (keys : List Row) (idxs : List ℕ) (rows : List Row)
    → Named keys idxs rows
    → All (λ i. i < length keys) idxs
unfolding Named
Named-lt keys [] [] named = tt
Named-lt keys [] (row ∷ rows) named = absurd named
Named-lt keys (idx ∷ idxs) [] named = absurd named
Named-lt keys (idx ∷ idxs) (row ∷ rows) (own, named) =
    (get_elem?-lt keys idx own, Named-lt keys idxs rows named)
