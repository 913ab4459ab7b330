-- ===== src/Execution/Aggregation/Sum/Batches.antt =====
-- The batches that a worker gives to its accumulator, and the sums that it ends with.
use tiny_olap.Base.{
  zero, suc, replicate, ℕ, ◌<◌, ◌≡◌, refl, ap, sym, ◌∙◌, List, [], ◌∷◌, map, length, ◌++◌, ◌≤◌,
  some, All, ok, err, panic, stuck, arith,
}
use tiny_olap.Catalog.{Name}
use tiny_olap.Execution.Batch.{Outcome}
use tiny_olap.Execution.Aggregation.{RecordBatch, column_by_name, Answer, and_then, settle, expect}
use tiny_olap.Execution.Aggregation.Slots.{resize, each_row}
use tiny_olap.Execution.Aggregation.Slots.Rows.{foldl, group_values, start_at, length-replicate}
use tiny_olap.Execution.Aggregation.Sum.{
  Summable, SumAccumulator, new, with_sums, ensure_capacity, sum_groups, update_column, update,
}
use tiny_olap.Execution.Aggregation.Sum.EachRow.{
  length-each_row, each_row-partial, length-resize_up, sum_groups-each_row,
}
use tiny_olap.Execution.Aggregation.Sum.Neutral.{
  Neutral, Neutral-IsSummable, resized_sums, resize-Neutral, each_row-Neutral,
}
use tiny_olap.Execution.Aggregation.Sum.PerGroup.{IsSummable, sum_groups-group_values}

module _ {Col N W : Type 0} (t : Summable Col N W) where
  foldl-append :
      {V : Type 0} (f : W → V → W) (a : W) (us vs : List V)
      → foldl f a (us ++ vs) ≡ foldl f (foldl f a us) vs
  foldl-append f a [] vs = refl
  foldl-append f a (u ∷ us) vs = foldl-append f (f a u) us vs

  -- One batch of a worker: the column that the sums are of, its values, the groups of the rows and
  -- the number of the groups that the worker has met so far.
  pub record WorkerBatch : Type 0 where
    pub batch : RecordBatch Col
    pub group_indices : List ℕ
    pub num_groups : ℕ
    pub column : Col
    pub values : List N

  -- The worker's calls of `update`, batch after batch.
  unfoldable pub update_all : List WorkerBatch → SumAccumulator W → Answer (SumAccumulator W)
  update_all [] s = (ok tt, s)
  update_all (b ∷ bs) s =
      and_then (update t b.batch b.group_indices b.num_groups s) (λ s'. update_all bs s')

  pub record IsBatch (name : Name) (b : WorkerBatch) : Type 0 where
    pub named : column_by_name name b.batch.columns ≡ some b.column
    pub typed : t.downcast b.column ≡ some b.values
    pub inside : All (λ l. l < b.num_groups) b.group_indices
    pub sizes : length b.group_indices ≡ length b.values

  -- The batches of a worker that has `k` groups, which never get fewer.
  abbrev pub AreBatches : Name → ℕ → List WorkerBatch → Type 0
  AreBatches name k [] = Unit
  AreBatches name k (b ∷ bs) = (k ≤ b.num_groups) × IsBatch name b × AreBatches name b.num_groups bs

  abbrev pub last_groups : ℕ → List WorkerBatch → ℕ
  last_groups k [] = k
  last_groups k (b ∷ bs) = last_groups b.num_groups bs

  -- The values of all the worker's rows in the group `g`, where `gis` are the indices that the
  -- worker's groups have in the merge.
  unfoldable pub worker_values : ℕ → List ℕ → List WorkerBatch → List N
  worker_values g gis [] = []
  worker_values g gis (b ∷ bs) =
      group_values g (map (λ l. start_at 0 gis l) b.group_indices) b.values
      ++ worker_values g gis bs

  groups_grow :
      (name : Name) (k : ℕ) (bs : List WorkerBatch) → AreBatches name k bs → k ≤ last_groups k bs
  groups_grow name k [] h = omega arith
  groups_grow name k (b ∷ bs) (more, own, h) =
      omega (arith, more, groups_grow name b.num_groups bs h)

  both_done :
      (r : Answer (SumAccumulator W)) (f : SumAccumulator W → Answer (SumAccumulator W))
      (s : SumAccumulator W)
      → and_then r f ≡ (ok tt, s)
      → (s' : SumAccumulator W) × (r ≡ (ok tt, s')) × (f s' ≡ (ok tt, s))
  unfolding and_then
  both_done (ok u, s') f s e = (s', refl, e)
  both_done (err x, s') f s e = cc
  both_done (panic, s') f s e = cc
  both_done (stuck, s') f s e = cc

  settled :
      (s s' : SumAccumulator W) (m : Outcome (List W))
      → settle (with_sums s) s m ≡ (ok tt, s')
      → (q : List W) × (m ≡ ok q) × (s' ≡ with_sums s q)
  unfolding settle
  settled s s' (ok q) h = (q, refl, sym (ap (λ r. r.1) h))
  settled s s' (err e) h = cc
  settled s s' panic h = cc
  settled s s' stuck h = cc

  -- What one `update` does to the sums.
  updated :
      (name : Name) (b : WorkerBatch) (xs : List W) (s' : SumAccumulator W)
      → IsBatch name b
      → update t b.batch b.group_indices b.num_groups (with_sums (new name) xs) ≡ (ok tt, s')
      → (q : List W) × (s' ≡ with_sums (new name) q)
        × (sum_groups t b.group_indices b.num_groups b.values (resize b.num_groups t.default xs)
            ≡ ok q)
  unfolding update update_column ensure_capacity expect new
  updated name b xs s' h e =
      let start = resize b.num_groups t.default xs in
      let (q, done, left) =
        settled (with_sums (new name) start) s'
          (sum_groups t b.group_indices b.num_groups b.values start) (rw (h.named, h.typed) at e) in
      (q, left, done)

module _ {Col N W : Type 0} (t : Summable Col N W) (IsWord : W → Type 0)
    (sums : IsSummable t IsWord) where
  -- One batch more: its rows go to the sums of their groups.
  batch_total :
      (gis : List ℕ) (name : Name) (b : WorkerBatch t) (xs q : List W) (a : W) (g : ℕ)
      → IsBatch t name b
      → All (Neutral t) xs
      → length xs ≤ b.num_groups
      → b.num_groups ≤ length gis
      → Neutral t a
      → sum_groups t b.group_indices b.num_groups b.values (resize b.num_groups t.default xs) ≡ ok q
      → (length q ≡ b.num_groups)
        × All (Neutral t) q
        × (foldl t.add_assign a (group_values g gis q)
            ≡ foldl
                (λ a v. t.add_assign a (t.into_widened v))
                (foldl t.add_assign a (group_values g gis xs))
                (group_values g (map (λ l. start_at 0 gis l) b.group_indices) b.values))
  batch_total gis name b xs q a g h words short long word e =
      let start = resize b.num_groups t.default xs in
      let size = length-resize_up t IsWord sums b.num_groups t.default xs short in
      let rows =
        sum_groups-each_row t (Neutral t) (Neutral-IsSummable t IsWord sums) b.group_indices
          b.num_groups b.values xs q words short h.inside h.sizes e in
      (
        length-each_row t IsWord sums b.group_indices b.values start q rows ∙ size,
        each_row-Neutral t IsWord sums b.group_indices b.values start q rows
            (resize-Neutral t IsWord sums b.num_groups xs words),
        each_row-partial t IsWord sums gis b.group_indices b.values a g start q
              (omega (arith, size, long)) h.sizes rows
            ∙ ap
                (λ c.
                  foldl (λ a v. t.add_assign a (t.into_widened v)) c
                    (group_values g (map (λ l. start_at 0 gis l) b.group_indices) b.values))
                (resized_sums t IsWord sums gis b.num_groups g a xs word),
      )

  -- The sums after all batches.
  pub worker_total :
      (gis : List ℕ) (name : Name) (k : ℕ) (bs : List (WorkerBatch t)) (xs p : List W) (a : W)
      (g : ℕ)
      → AreBatches t name k bs
      → All (Neutral t) xs
      → length xs ≡ k
      → last_groups t k bs ≤ length gis
      → Neutral t a
      → update_all t bs (with_sums (new name) xs) ≡ (ok tt, with_sums (new name) p)
      → (length p ≡ last_groups t k bs)
        × (foldl t.add_assign a (group_values g gis p)
            ≡ foldl
                (λ a v. t.add_assign a (t.into_widened v))
                (foldl t.add_assign a (group_values g gis xs))
                (worker_values t g gis bs))
  unfolding update_all worker_values
  worker_total gis name k [] xs p a g h words size long word e =
      let same : xs ≡ p = ap (λ r. r.1.running_sums) e in (rw (← same) size, rw same refl)
  worker_total gis name k (b ∷ bs) xs p a g (more, own, h) words size long word e =
      let (s', first, rest) =
        both_done t (update t b.batch b.group_indices b.num_groups (with_sums (new name) xs))
          (λ s'. update_all t bs s') (with_sums (new name) p) e in
      let (q, left, done) = updated t name b xs s' own first in
      let (size', words', total) =
        batch_total gis name b xs q a g own words (omega (arith, size, more))
          (omega (arith, groups_grow t name b.num_groups bs h, long)) word done in
      let (last, later) =
        worker_total gis name b.num_groups bs q p a g h words' size' long word (rw left at rest) in
      (
        last,
        later
            ∙ ap
                (λ c. foldl (λ a v. t.add_assign a (t.into_widened v)) c (worker_values t g gis bs))
                total
            ∙ sym (
                foldl-append t (λ a v. t.add_assign a (t.into_widened v))
                  (foldl t.add_assign a (group_values g gis xs))
                  (group_values g (map (λ l. start_at 0 gis l) b.group_indices) b.values)
                  (worker_values t g gis bs)),
      )

  sum_groups_done :
      (ls : List ℕ) (n : ℕ) (vs : List N) (xs : List W)
      → All (Neutral t) xs
      → All (λ l. l < n) ls
      → length ls ≡ length vs
      → (q : List W) × (sum_groups t ls n vs (resize n t.default xs) ≡ ok q)
  unfolding sum_groups each_row
  sum_groups_done [] zero vs xs words inside e = (resize zero t.default xs, refl)
  sum_groups_done (l ∷ ls) zero vs xs words inside e = absurd (omega (arith, inside.0))
  sum_groups_done ls (suc n) vs xs words inside e =
      let (q, done, _, _) =
        sum_groups-group_values t (Neutral t) (Neutral-IsSummable t IsWord sums) ls (suc n) vs xs 0
          words inside e (omega arith) in
      (q, done)

  -- The worker's accumulator takes all batches.
  pub worker_done :
      (name : Name) (k : ℕ) (bs : List (WorkerBatch t)) (xs : List W)
      → AreBatches t name k bs
      → All (Neutral t) xs
      → length xs ≡ k
      → (p : List W) × (update_all t bs (with_sums (new name) xs) ≡ (ok tt, with_sums (new name) p))
  unfolding update_all update update_column ensure_capacity settle expect new and_then
  worker_done name k [] xs h words size = (xs, refl)
  worker_done name k (b ∷ bs) xs (more, own, h) words size =
      let (q, done) =
        sum_groups_done b.group_indices b.num_groups b.values xs words own.inside own.sizes in
      let (size', words', _) =
        batch_total (replicate b.num_groups 0) name b xs q t.default 0 own words
          (omega (arith, size, more)) (omega (arith, length-replicate {A = ℕ} b.num_groups 0))
          (sums.add_default t.default sums.default_word) done in
      let (p, rest) = worker_done name b.num_groups bs q h words' size' in
      (p, rw (own.named, own.typed, done) rest)
