-- ===== src/Execution/Filter/Rows.antt =====
-- The rows that come out of a filter, and that its calls come to the `None`.
use tiny_olap.Base.{
  ℕ, zero, suc, ◌<◌, List, [], ◌∷◌, ◌++◌, map, flatten, ◌≡◌, refl, sym, ap, ◌∙◌, true, false,
  length, ltb, Option, none, some, ok, err, panic, stuck, ◌>>=◌, if◌then◌else◌, Bool-cases, inl,
  inr, All, arith,
}
use tiny_olap.Physical.Plan.{PhysicalExpr}
use tiny_olap.Execution.Batch.{Arrow, Batch, Mask, Outcome}
use tiny_olap.Execution.Predicate.{evaluate_predicate}
use tiny_olap.Execution.Filter.{FilterExec, filter_batch, answer_or_later, pull, next_batch}

-- The rows at which a mask is true.
unfoldable pub kept_rows : {Row : Type 0} → Mask → List Row → List Row
kept_rows [] rows = []
kept_rows (m ∷ mask) [] = []
kept_rows (m ∷ mask) (row ∷ rows) = let rest = kept_rows mask rows in if m then row ∷ rest else rest

-- What arrow documents of `filter_record_batch` and `num_rows`.
pub record IsFilter {Row : Type 0} (rows : Batch → List Row)
    (filter_record_batch : Batch → Mask → Outcome Batch) (num_rows : Batch → ℕ) : Type 0 where
  pub kept :
      (b : Batch) (mask : Mask)
      → length mask ≡ length (rows b)
      → (f : Batch) × (filter_record_batch b mask ≡ ok f) × (rows f ≡ kept_rows mask (rows b))
  pub counted : (b : Batch) → num_rows b ≡ length (rows b)

module _ (arrow : Arrow) (filter_record_batch : Batch → Mask → Outcome Batch) (num_rows : Batch → ℕ)
    {Row : Type 0} (rows : Batch → List Row) (laws : IsFilter rows filter_record_batch num_rows)
    (predicate : PhysicalExpr) where
  -- The predicate has a mask on the batch, with one truth value for each row.
  pub record HasMask (b : Batch) : Type 0 where
    pub mask : Mask
    pub evaluated : evaluate_predicate arrow predicate b ≡ ok mask
    pub full : length mask ≡ length (rows b)

  -- The rows of the batches at which their masks are true.
  abbrev pub selected : (bs : List Batch) → All HasMask bs → List Row
  selected [] h = []
  selected (b ∷ bs) (hb, h) = kept_rows hb.mask (rows b) ++ selected bs h

  -- One answer before the later ones; an error ends them.
  collect : Option (Outcome Batch) → Outcome (List Batch) → Outcome (List Batch)
  collect none rest = ok []
  collect (some (ok b)) rest = rest >>= λ bs. ok (b ∷ bs)
  collect (some (err e)) rest = err e
  collect (some panic) rest = panic
  collect (some stuck) rest = stuck

  -- All answers until the `None`.
  unfoldable pub answers : ℕ → FilterExec → Outcome (List Batch)
  unfolding collect
  answers zero s = stuck
  answers (suc fuel) s =
      let rest = answers fuel (next_batch arrow filter_record_batch num_rows s).1 in
      collect (next_batch arrow filter_record_batch num_rows s).0 rest

  abbrev pub state : List Batch → FilterExec
  state bs = record { predicate = predicate; child = map (λ b. ok b) bs }

  filter_batch-kept :
      (b : Batch) (h : HasMask b)
      → (f : Batch) × (filter_batch arrow filter_record_batch num_rows predicate b ≡ ok f)
        × (rows f ≡ kept_rows h.mask (rows b))
  unfolding filter_batch
  filter_batch-kept b h =
      let (f, e, same) = laws.kept b h.mask h.full in (f, rw (h.evaluated, e) refl, same)

  -- An empty batch is passed over.
  pull-empty :
      (b f : Batch) (bs : List Batch)
      → filter_batch arrow filter_record_batch num_rows predicate b ≡ ok f
      → ltb 0 (num_rows f) ≡ false
      → next_batch arrow filter_record_batch num_rows (state (b ∷ bs))
        ≡ next_batch arrow filter_record_batch num_rows (state bs)
  unfolding next_batch pull answer_or_later
  pull-empty b f bs e empty = rw (e, empty) refl

  pull-rows :
      (b f : Batch) (bs : List Batch)
      → filter_batch arrow filter_record_batch num_rows predicate b ≡ ok f
      → ltb 0 (num_rows f) ≡ true
      → next_batch arrow filter_record_batch num_rows (state (b ∷ bs)) ≡ (some (ok f), state bs)
  unfolding next_batch pull answer_or_later
  pull-rows b f bs e some_row = rw (e, some_row) refl

  no_rows : (f : Batch) → ltb 0 (num_rows f) ≡ false → rows f ≡ []
  no_rows f empty = nothing (rows f) (rw (laws.counted f) at empty)
    where
      nothing : (xs : List Row) → ltb 0 (length xs) ≡ false → xs ≡ []
      nothing [] e = refl
      nothing (x ∷ xs) e = absurd (positive (length xs) e)
        where
          positive : (n : ℕ) → ltb 0 (suc n) ≡ false → ⊥
          positive n e = ground arith

  no_answer : (fuel : ℕ) → answers (suc fuel) (state []) ≡ ok []
  unfolding answers next_batch pull
  no_answer fuel = refl

  call :
      (fuel : ℕ) (s : FilterExec) (r : Option (Outcome Batch) × FilterExec)
      → next_batch arrow filter_record_batch num_rows s ≡ r
      → answers (suc fuel) s ≡ collect r.0 (answers fuel r.1)
  unfolding answers collect
  call fuel s r e = ap (λ r. collect r.0 (answers fuel r.1)) e

  answers_lem :
      (fuel : ℕ) (bs : List Batch) (h : All HasMask bs)
      → length bs < fuel
      → (fs : List Batch) × (answers fuel (state bs) ≡ ok fs)
        × (flatten (map rows fs) ≡ selected bs h)
        × All (λ f. 0 < num_rows f) fs
  unfolding answers
  answers_lem zero bs h enough = absurd (omega arith)
  answers_lem (suc fuel) [] h enough = ([], no_answer fuel, refl, tt)
  answers_lem (suc fuel) (b ∷ bs) (hb, h) enough =
      let (f, e, same) = filter_batch-kept b hb in
      elim (Bool-cases (ltb 0 (num_rows f))) [
        | inl some_row ↦
            let (fs, e', rest, all_rows) = answers_lem fuel bs h (omega arith) in
            (
              f ∷ fs,
              call fuel (state (b ∷ bs)) (some (ok f), state bs) (pull-rows b f bs e some_row)
                  ∙ unfold collect in ap (λ m. m >>= λ gs. ok (f ∷ gs)) e',
              rw (same, rest) refl,
              (ground arith, all_rows),
            )
        | inr empty ↦
            let (fs, e', rest, all_rows) = answers_lem (suc fuel) bs h (omega arith) in
            (
              fs,
              call fuel (state (b ∷ bs)) (next_batch arrow filter_record_batch num_rows (state bs))
                    (pull-empty b f bs e empty)
                  ∙ e',
              rest ∙ ap (λ t. t ++ selected bs h) (sym (no_rows f empty) ∙ same),
              all_rows,
            )
      ]

  -- Over a child whose batches have masks, the calls of the filter come to the `None`, every answer
  -- before it is a batch with a row, and the rows are those at which the masks are true, in order.
  pub answers-selected :
      (bs : List Batch) (h : All HasMask bs)
      → (fs : List Batch) × (answers (suc (length bs)) (state bs) ≡ ok fs)
        × (flatten (map rows fs) ≡ selected bs h)
        × All (λ f. 0 < num_rows f) fs
  answers-selected bs h = answers_lem (suc (length bs)) bs h (omega arith)
