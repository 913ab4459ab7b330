-- ===== src/Encoding/Strings/Dictionary/Build.antt =====
-- What the loop that fills the dictionary of string_dictionary.rs keeps true.
use tiny_olap.Base.{
  ℕ, List, [], ◌∷◌, ◌+◌, ◌%◌, ◌≤◌, ◌<◌, ◌≡◌, ◌⊎◌, inl, inr, refl, Option, none, some, Bool-cases,
  length, get_elem?, All, All-append, bytes_eq, bytes_eq→eq, bytes_eq_refl, length-append,
  get_elem?-append, get_elem?-length, arith,
}
use tiny_olap.Base.Words.{word_mod}
use tiny_olap.Encoding.Strings.Dictionary.{Building, lookup, insert_new, add_string, build, empty}
use native.Mathlib.Nat.{mod-eq_of_lt}

-- The map gives each of its keys its place in the dictionary.
pub record IsBuilt (b : Building) : Type 0 where
  pub agree : (s : List ℕ) (i : ℕ) → lookup s b.index_map ≡ some i → get_elem? b.dict i ≡ some s

Option-cases {ℓ} : {A : Type ℓ} (o : Option A) → (o ≡ none) ⊎ ((a : A) × (o ≡ some a))
Option-cases none = inl refl
Option-cases (some a) = inr (a, refl)

-- The two ways of one round: the key is there, or it comes in.
add_string_cases :
    (s : List ℕ) (b : Building)
    → ((lookup s b.index_map ≡ none) × (add_string s b ≡ insert_new s b))
      ⊎ ((i : ℕ) × (lookup s b.index_map ≡ some i) × (add_string s b ≡ b))
unfolding add_string insert_new
add_string_cases s b = elim (Option-cases (lookup s b.index_map)) [
  | inl new ↦ inl (new, rw (new, add_string))
  | inr (i, old) ↦ inr (i, old, rw (old, add_string))
]

insert_new_agree :
    (s : List ℕ) (b : Building)
    → length b.dict < word_mod 4
    → IsBuilt b
    → (t : List ℕ) (i : ℕ) → lookup t (insert_new s b).index_map ≡ some i
    → get_elem? (insert_new s b).dict i ≡ some t
unfolding insert_new lookup
insert_new_agree s b small inv t i h = elim (Bool-cases (bytes_eq s t)) [
  | inl same ↦
      let at_end : some (length b.dict) ≡ some i = rw (same, mod-eq_of_lt small) at h in
      let place : length b.dict ≡ i = cc in
      rw (← place, ← bytes_eq→eq s t same) (get_elem?-length b.dict s [])
  | inr other ↦ get_elem?-append b.dict (s ∷ []) i (inv.agree t i (rw other at h))
]

-- Adding a string keeps the map and the list in step.
add_string-IsBuilt :
    (s : List ℕ) (b : Building) → length b.dict < word_mod 4 → IsBuilt b → IsBuilt (add_string s b)
add_string-IsBuilt s b small inv = elim (add_string_cases s b) [
  | inl (new, e) ↦ rw e (record { agree = insert_new_agree s b small inv })
  | inr (i, old, e) ↦ rw e inv
]

pub length-add_string :
    (s : List ℕ) (b : Building) → length (add_string s b).dict ≤ length b.dict + 1
unfolding insert_new
length-add_string s b = elim (add_string_cases s b) [
  | inl (new, e) ↦ rw e (omega (arith, length-append b.dict (s ∷ [])))
  | inr (i, old, e) ↦ rw e (omega arith)
]

add_string-All {κ} :
    (P : List ℕ → Type κ) (s : List ℕ) (b : Building)
    → P s
    → All P b.dict
    → All P (add_string s b).dict
unfolding insert_new
add_string-All P s b h all = elim (add_string_cases s b) [
  | inl (new, e) ↦ rw e (All-append P b.dict (s ∷ []) all (h, tt))
  | inr (i, old, e) ↦ rw e all
]

-- A key keeps its index when a string is added.
lookup-add_string :
    (s t : List ℕ) (b : Building) (i : ℕ)
    → lookup t b.index_map ≡ some i
    → lookup t (add_string s b).index_map ≡ some i
unfolding insert_new
lookup-add_string s t b i h = elim (add_string_cases s b) [
  | inl (new, e) ↦ rw e (elim (Bool-cases (bytes_eq s t)) [
    | inl same ↦ cc (bytes_eq→eq s t same)
    | inr other ↦ unfold lookup in rw other h
  ])
  | inr (j, old, e) ↦ rw e h
]

-- The index of a key.
abbrev pub Found : List (List ℕ × ℕ) → List ℕ → Type 0
Found m s = (i : ℕ) × (lookup s m ≡ some i)

add_string-Found : (s : List ℕ) (b : Building) → Found (add_string s b).index_map s
unfolding insert_new
add_string-Found s b = elim (add_string_cases s b) [
  | inl (new, e) ↦ rw e (length b.dict % word_mod 4, unfold lookup in rw (bytes_eq_refl s))
  | inr (i, old, e) ↦ rw e (i, old)
]

build-lookup :
    (src : List (List ℕ)) (t : List ℕ) (b : Building) (i : ℕ)
    → lookup t b.index_map ≡ some i
    → lookup t (build src b).index_map ≡ some i
unfolding build
build-lookup [] t b i h = h
build-lookup (s ∷ src) t b i h = build-lookup src t (add_string s b) i (lookup-add_string s t b i h)

-- Every string of the column has an index.
pub build-Found : (src : List (List ℕ)) (b : Building) → All (Found (build src b).index_map) src
unfolding build
build-Found [] b = tt
build-Found (s ∷ src) b =
    let (i, h) = add_string-Found s b in
    ((i, build-lookup src s (add_string s b) i h), build-Found src (add_string s b))

pub build-IsBuilt :
    (src : List (List ℕ)) (b : Building)
    → length b.dict + length src < word_mod 4
    → IsBuilt b
    → IsBuilt (build src b) × (length (build src b).dict < word_mod 4)
unfolding build
build-IsBuilt [] b small inv = (inv, omega arith)
build-IsBuilt (s ∷ src) b small inv =
    build-IsBuilt src (add_string s b) (omega (arith, length-add_string s b))
      (add_string-IsBuilt s b (omega arith) inv)

pub build-All {κ} :
    (P : List ℕ → Type κ) (src : List (List ℕ)) (b : Building)
    → All P src
    → All P b.dict
    → All P (build src b).dict
unfolding build
build-All P [] b hs all = all
build-All P (s ∷ src) b hs all =
    build-All P src (add_string s b) hs.1 (add_string-All P s b hs.0 all)

pub empty-IsBuilt : IsBuilt empty
empty-IsBuilt = record { agree = λ s i h. unfold lookup in cc h }
