-- ===== src/Execution/Aggregation/Sum/Partial.antt =====
-- Sums of partial sums are the sums of the rows, over all the batches of a worker.
use tiny_olap.Base.{
  ℕ, ◌<◌, ◌≡◌, refl, ap, sym, ◌∙◌, List, [], ◌∷◌, length, some, get_elem?, All, ok, arith,
}
use tiny_olap.Catalog.{Name}
use tiny_olap.Execution.Aggregation.{RecordBatch, column_by_name, settle, expect}
use tiny_olap.Execution.Aggregation.Slots.{resize}
use tiny_olap.Execution.Aggregation.Slots.Rows.{
  foldl, group_values, each_row-group_values, start_at, get_elem?-resize, length-resize, All-below,
}
use tiny_olap.Execution.Aggregation.Sum.{
  Summable, SumAccumulator, new, with_sums, ensure_capacity, output_field, merge_column, merge,
}
use tiny_olap.Execution.Aggregation.Sum.PerGroup.{IsSummable, start-IsWord}
use tiny_olap.Execution.Aggregation.Sum.Batches.{
  WorkerBatch, AreBatches, update_all, last_groups, worker_values, worker_total, worker_done,
}

module _ {Col N W : Type 0} (t : Summable Col N W) (IsWord : W → Type 0)
    (sums : IsSummable t IsWord) where
  no_values : (gis : List ℕ) (g : ℕ) (zs : List W) → zs ≡ [] → group_values g gis zs ≡ zs
  unfolding group_values
  no_values [] g zs e = sym e
  no_values (gi ∷ gis) g [] e = refl
  no_values (gi ∷ gis) g (z ∷ zs) e = cc

  -- For sums of words: a new accumulator of a worker takes the worker's batches one after the other
  -- without an error, when each has the column and the number of groups never falls. When the sums
  -- that it ends with are the column of a batch with group indices below the number of groups,
  -- `merge` succeeds and adds to the sum of each group the values of all the rows of all the worker's
  -- batches that are in the group.
  pub merge-update :
      (name : Name) (bs : List (WorkerBatch t)) (batch' : RecordBatch Col) (gis : List ℕ) (n : ℕ)
      (s : SumAccumulator W) (col' : Col) (g : ℕ)
      → AreBatches t name 0 bs
      → column_by_name (output_field t s).name batch'.columns ≡ some col'
      → t.downcast_widened col' ≡ some (update_all t bs (new name)).1.running_sums
      → All (λ gi. gi < n) gis
      → length gis ≡ last_groups t 0 bs
      → All IsWord s.running_sums
      → g < n
      → ((update_all t bs (new name)).0 ≡ ok tt)
        × (ys : List W) × (merge t batch' gis n s ≡ (ok tt, with_sums s ys))
        × (get_elem? ys g
            ≡ some (
                foldl
                  (λ a v. t.add_assign a (t.into_widened v))
                  (start_at t.default s.running_sums g)
                  (worker_values t g gis bs)))
  unfolding merge merge_column ensure_capacity output_field settle expect new
  merge-update name bs batch' gis n s col' g valid named' typed' inside' count words bound =
      let (p, taken) = worker_done t IsWord sums name 0 bs [] valid tt refl in
      let column : t.downcast_widened col' ≡ some p =
        typed' ∙ ap (λ r. some (r.1.running_sums)) taken in
      let start = resize n t.default s.running_sums in
      let word = start-IsWord t IsWord sums s.running_sums g words in
      let (size, total) =
        worker_total t IsWord sums gis name 0 bs [] p (start_at t.default s.running_sums g) g valid
          tt refl (omega (arith, count))
          (sums.add_default (start_at t.default s.running_sums g) word) taken in
      let (ys, done, _, folds) =
        each_row-group_values t.add_assign gis p start
          (All-below n (length start) gis (length-resize n t.default s.running_sums) inside')
          (omega (arith, count, size)) in
      (
        ap (λ r. r.0) taken,
        ys,
        rw (named', column, done) refl,
        folds g (start_at t.default s.running_sums g)
              (get_elem?-resize n t.default s.running_sums g bound)
            ∙ ap some (
                total
                ∙ ap
                    (λ zs.
                      foldl (λ a v. t.add_assign a (t.into_widened v))
                        (foldl t.add_assign (start_at t.default s.running_sums g) zs)
                        (worker_values t g gis bs))
                    (no_values gis g [] refl)),
      )
