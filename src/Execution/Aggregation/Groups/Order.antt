-- ===== src/Execution/Aggregation/Groups/Order.antt =====
-- The keys come out in the order of their indices, without a gap.
use tiny_olap.Base.{
  ℕ, zero, suc, ◌+◌, ◌<◌, ◌≡◌, refl, List, [], ◌∷◌, ◌++◌, map, length, length-append, get_elem?,
  get_elem?-length, All, ap, sym, ◌∙◌, ◌>>=◌, err, panic, stuck, replicate, Option, none, some,
  append_assoc, ok, arith,
}
use mathlib.Core.List.{Permᴰ}
use mathlib.Core.Path.{subst}
use tiny_olap.Execution.Batch.{Outcome}
use tiny_olap.Base.Words.{word_mod}
use tiny_olap.Execution.Aggregation.{expect}
use tiny_olap.Execution.Aggregation.Slots.{modify}
use tiny_olap.Execution.Aggregation.Groups.{
  Row, GroupMap, assign_rows, place_rows, expect_all, ordered_rows,
}
use tiny_olap.Execution.Aggregation.Groups.Dense.{
  numbered, length-numbered, IsDistinct, Named, assign_rows-Named,
}

modify-middle :
    {A : Type 0} (f : A → A) (xs : List A) (y : A) (ys : List A) (n : ℕ)
    → length xs ≡ n
    → modify f n (xs ++ (y ∷ ys)) ≡ ok (xs ++ (f y ∷ ys))
unfolding modify
modify-middle f [] y ys zero e = refl
modify-middle f [] y ys (suc n) e = absurd (omega arith)
modify-middle f (x ∷ xs) y ys zero e = absurd (omega arith)
modify-middle f (x ∷ xs) y ys (suc n) e = rw (modify-middle f xs y ys n (omega arith)) refl

place_rows-numbered :
    (keys : List Row) (n : ℕ) (filled : List (Option Row))
    → length filled ≡ n
    → place_rows (numbered n keys) (filled ++ replicate (length keys) none)
      ≡ ok (filled ++ map (λ key. some key) keys)
unfolding place_rows numbered
place_rows-numbered [] n filled e = refl
place_rows-numbered (key ∷ keys) n filled e =
    rw
      (
        modify-middle (λ _. some key) filled none (replicate (length keys) none) n e,
        ← append_assoc filled (some key ∷ []) (replicate (length keys) none),
        place_rows-numbered keys (n + 1) (filled ++ (some key ∷ []))
            (omega (arith, length-append filled (some key ∷ []), e)),
        append_assoc filled (some key ∷ []) (map (λ key. some key) keys),
      )
      refl

expect_all-some : (keys : List Row) → expect_all (map (λ key. some key) keys) ≡ ok keys
unfolding expect_all expect
expect_all-some [] = refl
expect_all-some (key ∷ keys) = rw (expect_all-some keys) refl

bind_assoc :
    {A B C : Type 0} (m : Outcome A) (f : A → Outcome B) (g : B → Outcome C)
    → (m >>= f >>= g) ≡ (m >>= λ a. f a >>= g)
bind_assoc (ok a) f g = refl
bind_assoc (err e) f g = refl
bind_assoc panic f g = refl
bind_assoc stuck f g = refl

same_bind :
    {A B : Type 0} (m : Outcome A) (f g : A → Outcome B)
    → ((a : A) → f a ≡ g a)
    → (m >>= f) ≡ (m >>= g)
same_bind (ok a) f g h = h a
same_bind (err e) f g h = refl
same_bind panic f g h = refl
same_bind stuck f g h = refl

modify-head :
    {A : Type 0} (m : Outcome (List A)) (x z : A)
    → (m >>= (λ ys. ok (x ∷ ys))) ≡ (m >>= (λ ys. ok (z ∷ ys)) >>= modify (λ _. x) 0)
unfolding modify
modify-head (ok ys) x z = refl
modify-head (err e) x z = refl
modify-head panic x z = refl
modify-head stuck x z = refl

modify-tail :
    {A : Type 0} (f : A → A) (j : ℕ) (m : Outcome (List A)) (z : A)
    → (m >>= (λ ys. ok (z ∷ ys)) >>= modify f (suc j)) ≡ (m >>= modify f j >>= (λ ys. ok (z ∷ ys)))
unfolding modify
modify-tail f j (ok ys) z = refl
modify-tail f j (err e) z = refl
modify-tail f j panic z = refl
modify-tail f j stuck z = refl

-- Two writes commute when they are at two places, or write the same.
writes_commute :
    {A : Type 0} (x y : A) (i j : ℕ) (zs : List A)
    → (i ≡ j → x ≡ y)
    → (modify (λ _. x) i zs >>= modify (λ _. y) j) ≡ (modify (λ _. y) j zs >>= modify (λ _. x) i)
unfolding modify
writes_commute x y i j [] h = refl
writes_commute x y zero zero (z ∷ zs) h = ap (λ w. ok (w ∷ zs)) (sym (h refl))
writes_commute x y zero (suc j) (z ∷ zs) h = modify-head (modify (λ _. y) j zs) x z
writes_commute x y (suc i) zero (z ∷ zs) h = sym (modify-head (modify (λ _. x) i zs) y z)
writes_commute x y (suc i) (suc j) (z ∷ zs) h =
    modify-tail (λ _. y) j (modify (λ _. x) i zs) z
    ∙ ap (λ m. m >>= (λ ys. ok (z ∷ ys))) (writes_commute x y i j zs (λ e. h (ap suc e)))
    ∙ sym (modify-tail (λ _. x) i (modify (λ _. y) j zs) z)

-- An entry with the index of its key.
abbrev Placed : List Row → Row × ℕ → Type 0
Placed keys (key, idx) = get_elem? keys idx ≡ some key

numbered-Placed :
    (filled keys : List Row) (n : ℕ)
    → length filled ≡ n
    → All (Placed (filled ++ keys)) (numbered n keys)
unfolding numbered
numbered-Placed filled [] n e = tt
numbered-Placed filled (key ∷ keys) n e = (
  rw (sym e) (get_elem?-length filled key keys),
  subst (λ ks. All (Placed ks) (numbered (n + 1) keys)) (append_assoc filled (key ∷ []) keys)
      (numbered-Placed (filled ++ (key ∷ [])) keys (n + 1)
        (omega (arith, length-append filled (key ∷ []), e))),
)

All-Permᴰ {κ} : {A : Type 0} (P : A → Type κ) {xs ys : List A} → Permᴰ xs ys → All P xs → All P ys
All-Permᴰ P Permᴰ.nil all = tt
All-Permᴰ P (Permᴰ.cons e d) (h, all) = (subst P e h, All-Permᴰ P d all)
All-Permᴰ P (Permᴰ.swap e₁ e₂) (h, (k, all)) = (subst P e₂ k, (subst P e₁ h, all))
All-Permᴰ P (Permᴰ.trans d₁ d₂) all = All-Permᴰ P d₂ (All-Permᴰ P d₁ all)

module _ (keys : List Row) where
  place_two :
      (a b : Row × ℕ) (m : GroupMap) (slots : List (Option Row))
      → Placed keys a
      → Placed keys b
      → place_rows (a ∷ b ∷ m) slots ≡ place_rows (b ∷ a ∷ m) slots
  unfolding place_rows
  place_two (k, i) (l, j) m slots ki lj =
      let same : i ≡ j → some k ≡ some l = λ e. sym ki ∙ ap (get_elem? keys) e ∙ lj in
      sym (bind_assoc (modify (λ _. some k) i slots) (modify (λ _. some l) j) (place_rows m))
      ∙ ap (λ o. o >>= place_rows m) (writes_commute (some k) (some l) i j slots same)
      ∙ bind_assoc (modify (λ _. some l) j slots) (modify (λ _. some k) i) (place_rows m)

  -- The slots do not depend on the order of the entries.
  place_rows-Permᴰ :
      {xs ys : GroupMap} (d : Permᴰ xs ys) (slots : List (Option Row))
      → All (Placed keys) xs
      → place_rows xs slots ≡ place_rows ys slots
  unfolding place_rows
  place_rows-Permᴰ Permᴰ.nil slots all = refl
  place_rows-Permᴰ (Permᴰ.cons {a = a} {l₁ = l₁} {l₂ = l₂} e d) slots all =
      same_bind (modify (λ _. some a.0) a.1 slots) (place_rows l₁) (place_rows l₂)
        (λ slots'. place_rows-Permᴰ d slots' all.1)
      ∙ ap (λ p. place_rows (p ∷ l₂) slots) e
  place_rows-Permᴰ (Permᴰ.swap {a = a} {b = b} {a' = a'} {l = l} e₁ e₂) slots all =
      place_two a b l slots all.0 all.1.0
      ∙ ap (λ p. place_rows (p ∷ a ∷ l) slots) e₂
      ∙ ap (λ p. place_rows (a' ∷ p ∷ l) slots) e₁
  place_rows-Permᴰ (Permᴰ.trans d₁ d₂) slots all =
      place_rows-Permᴰ d₁ slots all ∙ place_rows-Permᴰ d₂ slots (All-Permᴰ (Placed keys) d₁ all)

-- An iterator gives each entry of the map once.
abbrev pub Iterates : (GroupMap → GroupMap) → Type 0
Iterates iterate = (m : GroupMap) → Permᴰ m (iterate m)

ordered_rows-numbered :
    (iterate : GroupMap → GroupMap) (keys : List Row)
    → Iterates iterate
    → ordered_rows iterate (numbered 0 keys) ≡ ok keys
unfolding ordered_rows
ordered_rows-numbered iterate keys all =
    let m = numbered 0 keys in
    let placed = sym (
      place_rows-Permᴰ keys (all m) (replicate (length m) none) (numbered-Placed [] keys 0 refl)) in
    rw (placed, length-numbered 0 keys, place_rows-numbered keys 0 [] refl) (expect_all-some keys)

-- Whatever the order in which the map's iterator gives its entries: while there are fewer than 2 ^ 32
-- rows, the group-by columns have no gap: the keys in the order of the indices, where the index of
-- each row is that of its own key.
pub ordered_rows-assign_rows :
    (iterate : GroupMap → GroupMap) (rows keys : List Row)
    → Iterates iterate
    → IsDistinct keys
    → length keys + length rows < word_mod 4
    → (keys' : List Row) × (ordered_rows iterate (assign_rows rows (numbered 0 keys)).1 ≡ ok keys')
      × Named keys' (assign_rows rows (numbered 0 keys)).0 rows
      × IsDistinct keys'
ordered_rows-assign_rows iterate rows keys all distinct few =
    let (keys', e, named, distinct') = assign_rows-Named rows keys distinct few in
    (keys', rw e (ordered_rows-numbered iterate keys' all), named, distinct')
