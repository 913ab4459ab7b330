-- ===== src/Base/Lists.antt =====
-- Lists measured, cut and joined by native numbers, under the library's names.
use tiny_olap.Base.Tests.{◌==◌}
use Prim.Native.Nat.{ℕ, zero, suc, ◌+◌, ◌-◌, ◌*◌, ◌/◌, ◌<◌, min}
use mathlib.Core.Path.{◌≡◌, refl, ap, ◌∙◌}
use mathlib.Core.Bool.{Bool, true, false, ◌&&◌}
use mathlib.Core.List.{List, [], ◌∷◌, ◌++◌}
use mathlib.Core.Option.{Option, none, some}
use native.Mathlib.Omega.{arith}

module _ {ℓ} {A : Type ℓ} where
  abbrev pub length : List A → ℕ
  length [] = 0
  length (x ∷ xs) = suc (length xs)

  abbrev pub get_elem? : List A → ℕ → Option A
  get_elem? [] i = none
  get_elem? (x ∷ xs) zero = some x
  get_elem? (x ∷ xs) (suc i) = get_elem? xs i

  abbrev pub take : ℕ → List A → List A
  take zero xs = []
  take (suc n) [] = []
  take (suc n) (x ∷ xs) = x ∷ take n xs

  abbrev pub drop : ℕ → List A → List A
  drop zero xs = xs
  drop (suc n) [] = []
  drop (suc n) (x ∷ xs) = drop n xs

  abbrev pub replicate : ℕ → A → List A
  replicate zero a = []
  replicate (suc n) a = a ∷ replicate n a

  abbrev pub flatten : List (List A) → List A
  flatten [] = []
  flatten (xs ∷ xss) = xs ++ flatten xss

  -- `is_empty()`.
  abbrev pub is_empty : List A → Bool
  is_empty [] = true
  is_empty (x ∷ xs) = false

  abbrev pub All {κ} : (A → Type κ) → List A → Type κ
  All P [] = Unit {κ}
  All P (x ∷ xs) = P x × All P xs

  pub length-append : (xs ys : List A) → length (xs ++ ys) ≡ length xs + length ys
  length-append [] ys = omega arith
  length-append (x ∷ xs) ys = omega (arith, length-append xs ys)

module _ {ℓ} {A : Type ℓ} where
  pub take-append-drop : (n : ℕ) (xs : List A) → take n xs ++ drop n xs ≡ xs
  take-append-drop zero xs = refl
  take-append-drop (suc n) [] = refl
  take-append-drop (suc n) (x ∷ xs) = ap (λ t. x ∷ t) (take-append-drop n xs)

  pub length-take : (n : ℕ) (xs : List A) → length (take n xs) ≡ min n (length xs)
  length-take zero xs = omega arith
  length-take (suc n) [] = omega arith
  length-take (suc n) (x ∷ xs) = omega (arith, length-take n xs)

  pub length-drop : (n : ℕ) (xs : List A) → length (drop n xs) ≡ length xs - n
  length-drop zero xs = omega arith
  length-drop (suc n) [] = omega arith
  length-drop (suc n) (x ∷ xs) = omega (arith, length-drop n xs)

  pub pos→not_is_empty : (xs : List A) → 0 < length xs → is_empty xs ≡ false
  pos→not_is_empty [] h = absurd (omega arith)
  pos→not_is_empty (x ∷ xs) h = refl

  -- A prefix of known length is cut off exactly.
  pub take_prefix : (n : ℕ) (xs ys : List A) → length xs ≡ n → take n (xs ++ ys) ≡ xs
  take_prefix zero [] ys h = refl
  take_prefix zero (x ∷ xs) ys h = absurd (omega arith)
  take_prefix (suc n) [] ys h = absurd (omega arith)
  take_prefix (suc n) (x ∷ xs) ys h = ap (λ t. x ∷ t) (take_prefix n xs ys (omega arith))

  pub drop_prefix : (n : ℕ) (xs ys : List A) → length xs ≡ n → drop n (xs ++ ys) ≡ ys
  drop_prefix zero [] ys h = refl
  drop_prefix zero (x ∷ xs) ys h = absurd (omega arith)
  drop_prefix (suc n) [] ys h = absurd (omega arith)
  drop_prefix (suc n) (x ∷ xs) ys h = drop_prefix n xs ys (omega arith)

  pub All-take {κ} : (P : A → Type κ) (n : ℕ) (xs : List A) → All P xs → All P (take n xs)
  All-take P zero xs h = tt
  All-take P (suc n) [] h = tt
  All-take P (suc n) (x ∷ xs) h = (h.0, All-take P n xs h.1)

  pub All-drop {κ} : (P : A → Type κ) (n : ℕ) (xs : List A) → All P xs → All P (drop n xs)
  All-drop P zero xs h = h
  All-drop P (suc n) [] h = tt
  All-drop P (suc n) (x ∷ xs) h = All-drop P n xs h.1

  pub All-append {κ} : (P : A → Type κ) (xs ys : List A) → All P xs → All P ys → All P (xs ++ ys)
  All-append P [] ys hx hy = hy
  All-append P (x ∷ xs) ys hx hy = (hx.0, All-append P xs ys hx.1 hy)

chunk_count : (k n l : ℕ) → 0 < k → l ≡ n * k → l / k ≡ n
chunk_count k n l hk h = grind arith

-- `slice::chunks_exact(k)`: the whole chunks of `k` elements; a shorter tail is left out.
module _ {ℓ} {A : Type ℓ} where
  chunks : ℕ → ℕ → List A → List (List A)
  chunks zero k xs = []
  chunks (suc n) k xs = take k xs ∷ chunks n k (drop k xs)

  unfoldable pub chunks_exact : ℕ → List A → List (List A)
  unfolding chunks
  chunks_exact k xs = chunks (length xs / k) k xs

module _ {ℓ} {A : Type ℓ} where
  -- Cutting a list of `n` whole chunks loses nothing.
  flatten-chunks : (n k : ℕ) (xs : List A) → length xs ≡ n * k → flatten (chunks n k xs) ≡ xs
  unfolding chunks
  flatten-chunks zero k [] h = refl
  flatten-chunks zero k (x ∷ xs) h = absurd (omega arith)
  flatten-chunks (suc n) k xs h =
      ap (λ t. take k xs ++ t) (flatten-chunks n k (drop k xs) (omega (arith, length-drop k xs)))
      ∙ take-append-drop k xs

  chunks-All {κ} :
      (P : A → Type κ) (n k : ℕ) (xs : List A)
      → length xs ≡ n * k
      → All P xs
      → All (λ c. (length c ≡ k) × All P c) (chunks n k xs)
  unfolding chunks
  chunks-All P zero k xs e h = tt
  chunks-All P (suc n) k xs e h = (
    (omega (arith, length-take k xs), All-take P k xs h),
    chunks-All P n k (drop k xs) (omega (arith, length-drop k xs)) (All-drop P k xs h),
  )

  pub length-flatten :
      (k : ℕ) (cs : List (List A))
      → All (λ c. length c ≡ k) cs
      → length (flatten cs) ≡ length cs * k
  length-flatten k [] h = omega arith
  length-flatten k (c ∷ cs) h =
      omega (arith, length-append c (flatten cs), length-flatten k cs h.1, h.0)

  chunks-flatten :
      (k : ℕ) (cs : List (List A))
      → All (λ c. length c ≡ k) cs
      → chunks (length cs) k (flatten cs) ≡ cs
  unfolding chunks
  chunks-flatten k [] h = refl
  chunks-flatten k (c ∷ cs) h =
      rw (take_prefix k c (flatten cs) h.0, drop_prefix k c (flatten cs) h.0)
        (ap (λ t. c ∷ t) (chunks-flatten k cs h.1))

  -- `chunks_exact` undoes the joining of chunks of the same positive size.
  pub chunks_exact-flatten :
      (k : ℕ) (cs : List (List A))
      → 0 < k
      → All (λ c. length c ≡ k) cs
      → chunks_exact k (flatten cs) ≡ cs
  unfolding chunks_exact
  chunks_exact-flatten k cs hk h =
      rw (chunk_count k (length cs) _ hk (length-flatten k cs h)) (chunks-flatten k cs h)

  -- A list of whole chunks is the join of its chunks.
  pub flatten-chunks_exact :
      (k n : ℕ) (xs : List A) → 0 < k → length xs ≡ n * k → flatten (chunks_exact k xs) ≡ xs
  unfolding chunks_exact
  flatten-chunks_exact k n xs hk h = rw (chunk_count k n _ hk h) (flatten-chunks n k xs h)

  -- Each chunk has the size, and its elements are the list's.
  pub chunks_exact-All {κ} :
      (P : A → Type κ) (k n : ℕ) (xs : List A)
      → 0 < k
      → length xs ≡ n * k
      → All P xs
      → All (λ c. (length c ≡ k) × All P c) (chunks_exact k xs)
  unfolding chunks_exact
  chunks_exact-All P k n xs hk e h = rw (chunk_count k n _ hk e) (chunks-All P n k xs e h)

  chunks-lengths :
      (n k : ℕ) (xs : List A) → length xs ≡ n * k → All (λ c. length c ≡ k) (chunks n k xs)
  unfolding chunks
  chunks-lengths zero k xs e = tt
  chunks-lengths (suc n) k xs e = (
    omega (arith, length-take k xs),
    chunks-lengths n k (drop k xs) (omega (arith, length-drop k xs)),
  )

  pub chunks_exact-lengths :
      (k n : ℕ) (xs : List A)
      → 0 < k
      → length xs ≡ n * k
      → All (λ c. length c ≡ k) (chunks_exact k xs)
  unfolding chunks_exact
  chunks_exact-lengths k n xs hk e = rw (chunk_count k n _ hk e) (chunks-lengths n k xs e)

  length-chunks : (n k : ℕ) (xs : List A) → length (chunks n k xs) ≡ n
  unfolding chunks
  length-chunks zero k xs = refl
  length-chunks (suc n) k xs = ap suc (length-chunks n k (drop k xs))

  pub length-chunks_exact :
      (k n : ℕ) (xs : List A) → 0 < k → length xs ≡ n * k → length (chunks_exact k xs) ≡ n
  unfolding chunks_exact
  length-chunks_exact k n xs hk e = length-chunks (length xs / k) k xs ∙ chunk_count k n _ hk e

module _ {ℓ} {A : Type ℓ} where
  pub get_elem?-append :
      (xs ys : List A) (i : ℕ) {x : A} → get_elem? xs i ≡ some x → get_elem? (xs ++ ys) i ≡ some x
  get_elem?-append [] ys i h = cc
  get_elem?-append (x ∷ xs) ys zero h = h
  get_elem?-append (x ∷ xs) ys (suc i) h = get_elem?-append xs ys i h

  pub get_elem?-length :
      (xs : List A) (x : A) (ys : List A) → get_elem? (xs ++ (x ∷ ys)) (length xs) ≡ some x
  get_elem?-length [] x ys = refl
  get_elem?-length (y ∷ xs) x ys = get_elem?-length xs x ys

  pub get_elem?-lt : (xs : List A) (i : ℕ) {x : A} → get_elem? xs i ≡ some x → i < length xs
  get_elem?-lt [] i h = cc
  get_elem?-lt (x ∷ xs) zero h = omega arith
  get_elem?-lt (x ∷ xs) (suc i) h = omega (arith, get_elem?-lt xs i h)

-- `==` on byte slices and on strings.
unfoldable pub bytes_eq : List ℕ → List ℕ → Bool
bytes_eq [] [] = true
bytes_eq [] (y ∷ ys) = false
bytes_eq (x ∷ xs) [] = false
bytes_eq (x ∷ xs) (y ∷ ys) = x == y && bytes_eq xs ys

pub bytes_eq→eq : (xs ys : List ℕ) → bytes_eq xs ys ≡ true → xs ≡ ys
unfolding bytes_eq
bytes_eq→eq [] [] h = refl
bytes_eq→eq [] (y ∷ ys) h = cc
bytes_eq→eq (x ∷ xs) [] h = cc
bytes_eq→eq (x ∷ xs) (y ∷ ys) h = ground (arith, bytes_eq→eq xs ys)

pub bytes_eq_refl : (xs : List ℕ) → bytes_eq xs xs ≡ true
unfolding bytes_eq
bytes_eq_refl [] = refl
bytes_eq_refl (x ∷ xs) = ground (arith, bytes_eq_refl xs)
