-- ===== src/Execution/Aggregation/Slots/Rows.antt =====
-- What a pass over the rows leaves in the slot of each group.
use tiny_olap.Base.{
  ℕ, zero, suc, ◌-◌, ◌<◌, ◌≤◌, ◌≡◌, refl, ap, ◌∙◌, inl, inr, true, false, List, [], ◌∷◌, ◌++◌, ltb,
  ◌==◌, ==_iff, if◌then◌else◌, length, length-append, replicate, some, get_elem?, All, Bool-cases,
  ok, arith,
}
use tiny_olap.Execution.Aggregation.Slots.{resize, modify, each_row}

-- The fold of a list from the left.
abbrev pub foldl : {A V : Type 0} → (A → V → A) → A → List V → A
foldl f a [] = a
foldl f a (v ∷ vs) = foldl f (f a v) vs

-- The values of the rows of a group, in the order of the rows.
unfoldable pub group_values : {V : Type 0} → ℕ → List ℕ → List V → List V
group_values g [] vs = []
group_values g (gi ∷ gis) [] = []
group_values g (gi ∷ gis) (v ∷ vs) =
    let rest = group_values g gis vs in if gi == g then v ∷ rest else rest

module _ {A : Type 0} where
  -- A slot within the vector is changed, and no other.
  pub modify_inside :
      (f : A → A) (i : ℕ) (xs : List A)
      → i < length xs
      → (ys : List A) × (modify f i xs ≡ ok ys)
        × (length ys ≡ length xs)
        × ((a : A) → get_elem? xs i ≡ some a → get_elem? ys i ≡ some (f a))
        × ((g : ℕ) → (i == g) ≡ false → get_elem? ys g ≡ get_elem? xs g)
  unfolding modify
  modify_inside f i [] h = absurd (omega arith)
  modify_inside f zero (x ∷ xs) h = (f x ∷ xs, refl, refl, first, others)
    where
      first : (a : A) → some x ≡ some a → some (f x) ≡ some (f a)
      first a e = cc

      others : (g : ℕ) → (0 == g) ≡ false → get_elem? (f x ∷ xs) g ≡ get_elem? (x ∷ xs) g
      others zero e = cc
      others (suc g) e = refl
  modify_inside f (suc i) (x ∷ xs) h =
      let (ys, e, size, own, others) = modify_inside f i xs (omega arith) in
      (x ∷ ys, rw e refl, ap suc size, own, other_slots ys others)
    where
      other_slots :
          (ys : List A)
          → ((g : ℕ) → (i == g) ≡ false → get_elem? ys g ≡ get_elem? xs g)
          → (g : ℕ) → (suc i == g) ≡ false
          → get_elem? (x ∷ ys) g ≡ get_elem? (x ∷ xs) g
      other_slots ys others zero e = refl
      other_slots ys others (suc g) e = others g (ground arith)

module _ {A V : Type 0} (f : A → V → A) where
  -- Each group's slot ends as the fold of the values of its rows.
  pub each_row-group_values :
      (gis : List ℕ) (vs : List V) (xs : List A)
      → All (λ gi. gi < length xs) gis
      → length gis ≤ length vs
      → (ys : List A) × (each_row f gis vs xs ≡ ok ys)
        × (length ys ≡ length xs)
        × ((g : ℕ) (a : A)
            → get_elem? xs g ≡ some a
            → get_elem? ys g ≡ some (foldl f a (group_values g gis vs)))
  unfolding each_row group_values
  each_row-group_values [] vs xs inside enough = (xs, refl, refl, λ g a e. e)
  each_row-group_values (gi ∷ gis) [] xs inside enough = absurd (omega arith)
  each_row-group_values (gi ∷ gis) (v ∷ vs) xs (first, inside) enough =
      let (ys, e, size, own, others) = modify_inside (λ a. f a v) gi xs first in
      let (zs, e', size', folds) = each_row-group_values gis vs ys (rw size inside) (omega arith) in
      (zs, rw (e, e') refl, size' ∙ size, both ys zs own others folds)
    where
      both :
          (ys zs : List A)
          → ((a : A) → get_elem? xs gi ≡ some a → get_elem? ys gi ≡ some (f a v))
          → ((g : ℕ) → (gi == g) ≡ false → get_elem? ys g ≡ get_elem? xs g)
          → ((g : ℕ) (a : A)
              → get_elem? ys g ≡ some a
              → get_elem? zs g ≡ some (foldl f a (group_values g gis vs)))
          → (g : ℕ) (a : A) → get_elem? xs g ≡ some a
          → get_elem? zs g ≡ some (foldl f a (group_values g (gi ∷ gis) (v ∷ vs)))
      both ys zs own others folds g a e = elim (Bool-cases (gi == g)) [
        | inl mine ↦
            let same : gi ≡ g = (==_iff gi g).0 mine in
            rw mine (folds g (f a v) (rw (← same) (own a (rw same e))))
        | inr other ↦ rw other (folds g a (others g other ∙ e))
      ]

-- The slot of a group, or the default where there is none yet.
unfoldable pub start_at : {A : Type 0} → A → List A → ℕ → A
start_at default [] g = default
start_at default (x ∷ xs) zero = x
start_at default (x ∷ xs) (suc g) = start_at default xs g

module _ {A : Type 0} where
  replicated : (n : ℕ) (d : A) (g : ℕ) → g < n → get_elem? (replicate n d) g ≡ some d
  replicated zero d g h = absurd (omega arith)
  replicated (suc n) d zero h = refl
  replicated (suc n) d (suc g) h = replicated n d g (omega arith)

  padded :
      (n : ℕ) (d : A) (xs : List A) (g : ℕ)
      → g < n
      → get_elem? (xs ++ replicate (n - length xs) d) g ≡ some (start_at d xs g)
  unfolding start_at
  padded n d [] g h = let all_new : n - 0 ≡ n = omega arith in rw all_new (replicated n d g h)
  padded zero d (x ∷ xs) g h = absurd (omega arith)
  padded (suc n) d (x ∷ xs) zero h = refl
  padded (suc n) d (x ∷ xs) (suc g) h =
      let same : suc n - suc (length xs) ≡ n - length xs = omega arith in
      rw same (padded n d xs g (omega arith))

  kept : (d : A) (xs : List A) (g : ℕ) → g < length xs → get_elem? xs g ≡ some (start_at d xs g)
  unfolding start_at
  kept d [] g h = absurd (omega arith)
  kept d (x ∷ xs) zero h = refl
  kept d (x ∷ xs) (suc g) h = kept d xs g (omega arith)

  pub get_elem?-resize :
      (n : ℕ) (d : A) (xs : List A) (g : ℕ)
      → g < n
      → get_elem? (resize n d xs) g ≡ some (start_at d xs g)
  unfolding resize
  get_elem?-resize n d xs g h = elim (Bool-cases (ltb (length xs) n)) [
    | inl short ↦ rw short (padded n d xs g h)
    | inr long ↦ rw long (kept d xs g (enough (length xs) long))
  ]
    where
      enough : (l : ℕ) → ltb l n ≡ false → g < l
      enough l e = ground arith

  pub length-replicate : (n : ℕ) (d : A) → length (replicate n d) ≡ n
  length-replicate zero d = refl
  length-replicate (suc n) d = ap suc (length-replicate n d)

  pub length-resize : (n : ℕ) (d : A) (xs : List A) → n ≤ length (resize n d xs)
  unfolding resize
  length-resize n d xs = elim (Bool-cases (ltb (length xs) n)) [
    | inl short ↦ rw short (
        omega (
          arith,
          length-append xs (replicate (n - length xs) d),
          length-replicate (n - length xs) d,
        ))
    | inr long ↦ rw long (enough (length xs) long)
  ]
    where
      enough : (l : ℕ) → ltb l n ≡ false → n ≤ l
      enough l e = ground arith

-- Indices below a bound lie within any longer vector.
pub All-below : (n m : ℕ) (gis : List ℕ) → n ≤ m → All (λ gi. gi < n) gis → All (λ gi. gi < m) gis
All-below n m [] h all = tt
All-below n m (gi ∷ gis) h (first, all) = (omega arith, All-below n m gis h all)

-- In a single group are the values of all rows.
pub group_values-single :
    {V : Type 0} (gis : List ℕ) (vs : List V)
    → All (λ gi. gi < 1) gis
    → length gis ≡ length vs
    → group_values 0 gis vs ≡ vs
unfolding group_values
group_values-single [] [] all e = refl
group_values-single [] (v ∷ vs) all e = absurd (omega arith)
group_values-single (gi ∷ gis) [] all e = absurd (omega arith)
group_values-single (gi ∷ gis) (v ∷ vs) (first, all) e =
    let is_zero : (gi == 0) ≡ true = ground arith in
    rw is_zero (ap (λ t. v ∷ t) (group_values-single gis vs all (omega arith)))
