-- ===== src/Execution/Aggregation/Sum/EachRow.antt =====
-- The loop over the rows of a batch: how it changes the sums of the groups that partial sums go to.
use tiny_olap.Base.{
  ℕ, zero, suc, ◌-◌, ◌<◌, ◌≡◌, refl, ap, sym, ◌∙◌, inl, inr, false, List, [], ◌∷◌, ◌==◌, ==_iff,
  ltb, map, replicate, length, length-append, ◌≤◌, some, get_elem?, All, Bool-cases, if◌then◌else◌,
  ok, first_step, arith,
}
use tiny_olap.Execution.Aggregation.Slots.{resize, modify, each_row}
use tiny_olap.Execution.Aggregation.Slots.Rows.{
  foldl, group_values, each_row-group_values, start_at, get_elem?-resize, length-resize,
  length-replicate, All-below,
}
use tiny_olap.Execution.Aggregation.Sum.{Summable, sum_groups}
use tiny_olap.Execution.Aggregation.Sum.PerGroup.{IsSummable, sum_groups-group_values}

-- Lists with the same elements are the same.
same_elements :
    {A : Type 0} (xs ys : List A)
    → length xs ≡ length ys
    → ((i : ℕ) → i < length xs → get_elem? xs i ≡ get_elem? ys i)
    → xs ≡ ys
same_elements [] [] e h = refl
same_elements [] (y ∷ ys) e h = absurd (omega arith)
same_elements (x ∷ xs) [] e h = absurd (omega arith)
same_elements (x ∷ xs) (y ∷ ys) e h =
    let heads : some x ≡ some y = h 0 (omega arith) in
    let first : x ≡ y = cc in
    rw first (ap (λ t. y ∷ t) (same_elements xs ys (omega arith) (λ i b. h (suc i) (omega arith))))

module _ {Col N W : Type 0} (t : Summable Col N W) (IsWord : W → Type 0)
    (sums : IsSummable t IsWord) where
  pub swap_last :
      (a b c : W) → t.add_assign (t.add_assign a b) c ≡ t.add_assign (t.add_assign a c) b
  swap_last a b c =
      sums.add_assoc a b c
      ∙ ap (λ s. t.add_assign a s) (sums.add_comm b c)
      ∙ sym (sums.add_assoc a c b)

  move_out :
      (a x : W) (ys : List W)
      → foldl t.add_assign (t.add_assign a x) ys ≡ t.add_assign (foldl t.add_assign a ys) x
  move_out a x [] = refl
  move_out a x (y ∷ ys) =
      ap (λ b. foldl t.add_assign b ys) (swap_last a x y) ∙ move_out (t.add_assign a y) x ys

  -- A value more in one partial sum is a value more in the sum of its group.
  one_more :
      (gis : List ℕ) (x a : W) (l g : ℕ) (ps qs : List W)
      → length ps ≤ length gis
      → modify (λ p. t.add_assign p x) l ps ≡ ok qs
      → foldl t.add_assign a (group_values g gis qs) ≡ (
          if start_at 0 gis l == g
          then t.add_assign (foldl t.add_assign a (group_values g gis ps)) x
          else foldl t.add_assign a (group_values g gis ps))
  unfolding modify group_values start_at
  one_more gis x a l g [] qs e h = cc
  one_more [] x a l g (p ∷ ps) qs e h = absurd (omega arith)
  one_more (gi ∷ gis) x a zero g (p ∷ ps) qs e h =
      let changed : qs ≡ t.add_assign p x ∷ ps = cc in
      rw changed (elim (Bool-cases (gi == g)) [
        | inl mine ↦ rw mine (
            ap (λ b. foldl t.add_assign b (group_values g gis ps)) (sym (sums.add_assoc a p x))
            ∙ move_out (t.add_assign a p) x (group_values g gis ps))
        | inr other ↦ rw other refl
      ])
  one_more (gi ∷ gis) x a (suc l) g (p ∷ ps) qs e h =
      let (rest, e', given) =
        first_step (modify (λ p. t.add_assign p x) l ps) (λ ys. ok (p ∷ ys)) qs h in
      let changed : qs ≡ p ∷ rest = cc in
      rw changed (elim (Bool-cases (gi == g)) [
        | inl mine ↦ rw mine (one_more gis x (t.add_assign a p) l g ps rest (omega arith) e')
        | inr other ↦ rw other (one_more gis x a l g ps rest (omega arith) e')
      ])

  length-modify :
      (f : W → W) (l : ℕ) (ps qs : List W) → modify f l ps ≡ ok qs → length qs ≡ length ps
  unfolding modify
  length-modify f l [] qs h = cc
  length-modify f zero (p ∷ ps) qs h = let changed : qs ≡ f p ∷ ps = cc in rw changed refl
  length-modify f (suc l) (p ∷ ps) qs h =
      let (rest, e, given) = first_step (modify f l ps) (λ ys. ok (p ∷ ys)) qs h in
      let changed : qs ≡ p ∷ rest = cc in rw changed (ap suc (length-modify f l ps rest e))

  pub length-each_row :
      (ls : List ℕ) (vs : List N) (ps qs : List W)
      → each_row (λ a v. t.add_assign a (t.into_widened v)) ls vs ps ≡ ok qs
      → length qs ≡ length ps
  unfolding each_row
  length-each_row [] vs ps qs h = let same : ps ≡ qs = cc in rw same refl
  length-each_row (l ∷ ls) [] ps qs h = cc
  length-each_row (l ∷ ls) (v ∷ vs) ps qs h =
      let (ps', first, rest) =
        first_step (modify (λ p. t.add_assign p (t.into_widened v)) l ps)
          (λ ys. each_row (λ a v. t.add_assign a (t.into_widened v)) ls vs ys) qs h in
      length-each_row ls vs ps' qs rest
      ∙ length-modify (λ p. t.add_assign p (t.into_widened v)) l ps ps' first

  -- The rows of the groups `ls` of a worker, whose groups have the indices `gis`.
  pub each_row-partial :
      (gis ls : List ℕ) (vs : List N) (a : W) (g : ℕ) (ps qs : List W)
      → length ps ≤ length gis
      → length ls ≡ length vs
      → each_row (λ a v. t.add_assign a (t.into_widened v)) ls vs ps ≡ ok qs
      → foldl t.add_assign a (group_values g gis qs)
        ≡ foldl
            (λ a v. t.add_assign a (t.into_widened v))
            (foldl t.add_assign a (group_values g gis ps))
            (group_values g (map (λ l. start_at 0 gis l) ls) vs)
  unfolding each_row group_values
  each_row-partial gis [] vs a g ps qs e ev h = let same : ps ≡ qs = cc in rw same refl
  each_row-partial gis (l ∷ ls) [] a g ps qs e ev h = absurd (omega arith)
  each_row-partial gis (l ∷ ls) (v ∷ vs) a g ps qs e ev h =
      let (ps', first, rest) =
        first_step (modify (λ p. t.add_assign p (t.into_widened v)) l ps)
          (λ ys. each_row (λ a v. t.add_assign a (t.into_widened v)) ls vs ys) qs h in
      let size = length-modify (λ p. t.add_assign p (t.into_widened v)) l ps ps' first in
      let later =
        each_row-partial gis ls vs a g ps' qs (omega (arith, e, size)) (omega arith) rest in
      let more = one_more gis (t.into_widened v) a l g ps ps' e first in
      elim (Bool-cases (start_at 0 gis l == g)) [
        | inl mine ↦ rw mine (later ∙ ap (folded ls vs) (rw mine at more))
        | inr other ↦ rw other (later ∙ ap (folded ls vs) (rw other at more))
      ]
    where
      folded : List ℕ → List N → W → W
      folded ls vs b =
          foldl (λ a v. t.add_assign a (t.into_widened v)) b
            (group_values g (map (λ l. start_at 0 gis l) ls) vs)

  pub length-resize_up : (k : ℕ) (d : W) (xs : List W) → length xs ≤ k → length (resize k d xs) ≡ k
  unfolding resize
  length-resize_up k d xs h = elim (Bool-cases (ltb (length xs) k)) [
    | inl short ↦ rw short (
        omega (
          arith,
          h,
          length-append xs (replicate (k - length xs) d),
          length-replicate (k - length xs) d,
        ))
    | inr long ↦ rw long (whole (length xs) h long)
  ]
    where
      whole : (l : ℕ) → l ≤ k → ltb l k ≡ false → l ≡ k
      whole l h e = ground arith

  -- The path for one group leaves the sums that the loop over the rows leaves, when no sum is cut off.
  pub sum_groups-each_row :
      (ls : List ℕ) (k : ℕ) (vs : List N) (xs p : List W)
      → All IsWord xs
      → length xs ≤ k
      → All (λ l. l < k) ls
      → length ls ≡ length vs
      → sum_groups t ls k vs (resize k t.default xs) ≡ ok p
      → each_row (λ a v. t.add_assign a (t.into_widened v)) ls vs (resize k t.default xs) ≡ ok p
  sum_groups-each_row ls k vs xs p words short inside e h =
      let start = resize k t.default xs in
      let (q, e', size, folds) =
        each_row-group_values (λ a v. t.add_assign a (t.into_widened v)) ls vs start
          (All-below k (length start) ls (length-resize k t.default xs) inside) (omega arith) in
      elim (Bool-cases (k == 1)) [
        | inr several ↦ unfold sum_groups in (rw several at h)
        | inl single ↦
            let one : k ≡ 1 = (==_iff k 1).0 single in
            let (p', h', _, size') =
              sum_groups-group_values t IsWord sums ls k vs xs 0 words inside e (omega arith) in
            let same : p' ≡ p = cc in
            let slot : (i : ℕ) → i < length q → get_elem? q i ≡ get_elem? p i = λ i bound.
              let within : i < k = omega (arith, size, length-resize_up k t.default xs short) in
              let (pi, hi, value, _) =
                sum_groups-group_values t IsWord sums ls k vs xs i words inside e within in
              let same_i : pi ≡ p = cc in
              folds i (start_at t.default xs i) (get_elem?-resize k t.default xs i within)
              ∙ sym value
              ∙ ap (λ zs. get_elem? zs i) same_i in
            e' ∙ ap ok (same_elements q p (size ∙ sym size' ∙ ap length same) slot)
      ]
