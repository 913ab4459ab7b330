-- ===== src/Execution/Aggregation/Sum/PerGroup.antt =====
-- A sum accumulator holds, for each group, the sum of the values of its rows.
use tiny_olap.Base.{
  ℕ, zero, suc, ◌<◌, ◌≡◌, refl, ap, sym, ◌∙◌, inl, inr, true, List, [], ◌∷◌, ◌==◌, ==_iff, length,
  some, get_elem?, All, Bool-cases, ok, arith,
}
use tiny_olap.Execution.Aggregation.{RecordBatch, column_by_name, settle, expect}
use tiny_olap.Execution.Aggregation.Slots.{resize, modify}
use tiny_olap.Execution.Aggregation.Slots.Rows.{
  foldl, group_values, modify_inside, each_row-group_values, start_at, get_elem?-resize,
  length-resize, All-below, group_values-single,
}
use tiny_olap.Execution.Aggregation.Sum.{
  Summable, SumAccumulator, with_sums, ensure_capacity, sum_all, sum_groups, update_column, update,
}

-- The sums are words under a wrapping addition: a double is no such type.
pub record IsSummable {Col N W : Type 0} (t : Summable Col N W) (IsWord : W → Type 0) : Type 0 where
  pub default_word : IsWord t.default
  pub add_assoc :
      (a b c : W) → t.add_assign (t.add_assign a b) c ≡ t.add_assign a (t.add_assign b c)
  pub add_comm : (a b : W) → t.add_assign a b ≡ t.add_assign b a
  pub add_default : (a : W) → IsWord a → t.add_assign a t.default ≡ a

module _ {Col N W : Type 0} (t : Summable Col N W) (IsWord : W → Type 0)
    (sums : IsSummable t IsWord) where
  add-sum_all :
      (a b : W) (vs : List N)
      → t.add_assign a (sum_all t b vs)
        ≡ foldl (λ a v. t.add_assign a (t.into_widened v)) (t.add_assign a b) vs
  unfolding sum_all
  add-sum_all a b [] = refl
  add-sum_all a b (v ∷ vs) =
      add-sum_all a (t.add_assign b (t.into_widened v)) vs
      ∙ ap (λ c. foldl (λ a v. t.add_assign a (t.into_widened v)) c vs)
          (sym (sums.add_assoc a b (t.into_widened v)))

  pub start-IsWord : (xs : List W) (g : ℕ) → All IsWord xs → IsWord (start_at t.default xs g)
  unfolding start_at
  start-IsWord [] g words = sums.default_word
  start-IsWord (x ∷ xs) zero (first, words) = first
  start-IsWord (x ∷ xs) (suc g) (first, words) = start-IsWord xs g words

  -- The sum of a batch apart, added to the only group.
  single_group :
      (n : ℕ) (vs : List N) (xs : List W)
      → (n == 1) ≡ true
      → All IsWord xs
      → (ys : List W) × (modify
            (λ a. t.add_assign a (sum_all t t.default vs))
            0
            (resize n t.default xs)
          ≡ ok ys)
        × (get_elem? ys 0
            ≡ some (foldl (λ a v. t.add_assign a (t.into_widened v)) (start_at t.default xs 0) vs))
        × (length ys ≡ length (resize n t.default xs))
  single_group n vs xs single words =
      let one : n ≡ 1 = (==_iff n 1).0 single in
      let (ys, e, size, own, _) =
        modify_inside (λ a. t.add_assign a (sum_all t t.default vs)) 0 (resize n t.default xs)
          (omega (arith, length-resize n t.default xs)) in
      let first = start_at t.default xs 0 in
      let value = own first (get_elem?-resize n t.default xs 0 (omega arith)) in
      let total =
        add-sum_all first t.default vs
        ∙ ap (λ a. foldl (λ a v. t.add_assign a (t.into_widened v)) a vs)
            (sums.add_default first (start-IsWord xs 0 words)) in
      (ys, e, value ∙ ap some total, size)

  pub sum_groups-group_values :
      (gis : List ℕ) (n : ℕ) (vs : List N) (xs : List W) (g : ℕ)
      → All IsWord xs
      → All (λ gi. gi < n) gis
      → length gis ≡ length vs
      → g < n
      → (ys : List W) × (sum_groups t gis n vs (resize n t.default xs) ≡ ok ys)
        × (get_elem? ys g
            ≡ some (
                foldl
                  (λ a v. t.add_assign a (t.into_widened v))
                  (start_at t.default xs g)
                  (group_values g gis vs)))
        × (length ys ≡ length (resize n t.default xs))
  unfolding sum_groups
  sum_groups-group_values gis n vs xs g words inside e bound =
      let size = length-resize n t.default xs in
      elim (Bool-cases (n == 1)) [
        | inl single ↦
            let one : n ≡ 1 = (==_iff n 1).0 single in
            let none_else : g ≡ 0 = omega arith in
            let (ys, e', value, same_size) = single_group n vs xs single words in
            (
              ys,
              rw single e',
              rw (none_else, group_values-single gis vs (rw one at inside) e) value,
              same_size,
            )
        | inr several ↦
            let (ys, e', same_size, folds) =
              each_row-group_values (λ a v. t.add_assign a (t.into_widened v)) gis vs
                (resize n t.default xs)
                (All-below n (length (resize n t.default xs)) gis size inside) (omega arith) in
            (
              ys,
              rw several e',
              folds g (start_at t.default xs g) (get_elem?-resize n t.default xs g bound),
              same_size,
            )
      ]

  -- For sums of words: on a batch that has the column, with the values `vs` and the group indices
  -- below the number of groups, `update` succeeds and adds to the sum of each group the values of its
  -- rows, with one group as with several.
  pub update-group_values :
      (batch : RecordBatch Col) (gis : List ℕ) (n : ℕ) (s : SumAccumulator W) (col : Col)
      (vs : List N) (g : ℕ)
      → column_by_name s.column_name batch.columns ≡ some col
      → t.downcast col ≡ some vs
      → All IsWord s.running_sums
      → All (λ gi. gi < n) gis
      → length gis ≡ length vs
      → g < n
      → (ys : List W) × (update t batch gis n s ≡ (ok tt, with_sums s ys))
        × (get_elem? ys g
            ≡ some (
                foldl
                  (λ a v. t.add_assign a (t.into_widened v))
                  (start_at t.default s.running_sums g)
                  (group_values g gis vs)))
  unfolding update update_column ensure_capacity settle expect
  update-group_values batch gis n s col vs g named typed words inside e bound =
      let (ys, done, value, _) =
        sum_groups-group_values gis n vs s.running_sums g words inside e bound in
      (ys, rw (named, typed, done) refl, value)
