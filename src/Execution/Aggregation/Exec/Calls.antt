-- ===== src/Execution/Aggregation/Exec/Calls.antt =====
-- The calls of the aggregation operators: one batch, and the errors of the child.
use tiny_olap.Base.{
  ℕ, ◌≡◌, refl, ap, sym, ◌∙◌, inl, inr, true, false, Bool, List, [], ◌∷◌, ◌++◌, map, if◌then◌else◌,
  Bool-cases, Option, none, some, ok, err, panic, stuck,
}
use tiny_olap.Execution.Batch.{ExecutionError, Outcome}
use tiny_olap.Execution.Aggregation.{RecordBatch, Field, Answer, and_then, Accumulator}
use tiny_olap.Execution.Aggregation.Groups.{Row, GroupMap}
use tiny_olap.Execution.Aggregation.Exec.{
  AggregateExec, with_child, with_groups, group_rows, group_arrays, materialize_all, emit_batch,
  emit_arrays, finish, feed, accept_rows, accept_batch, drain, next_batch,
}

else_branch : {A : Type 0} (x y : A) (c : Bool) → c ≡ false → (if c then x else y) ≡ y
else_branch x y false e = refl
else_branch x y true e = cc

module _ {Col S : Type 0} (acc : Accumulator Col S)
    (convert_columns : List Col → Outcome (List Row)) (convert_rows : List Row → Outcome (List Col))
    (try_new : List Field → List Col → Outcome (RecordBatch Col)) (iterate : GroupMap → GroupMap)
    (accept : RecordBatch Col → List ℕ → ℕ → S → Answer S) where
  emitted_after :
      (m : Outcome (RecordBatch Col)) (s s' : AggregateExec Col S) (b : RecordBatch Col)
      → emit_batch acc convert_columns convert_rows try_new iterate m s ≡ (some (ok b), s')
      → s'.emitted ≡ true
  unfolding emit_batch
  emitted_after (ok batch) s s' b e = sym (ap (λ r. r.1.emitted) e)
  emitted_after (err x) s s' b e = cc
  emitted_after panic s s' b e = cc
  emitted_after stuck s s' b e = cc

  emitted_arrays :
      (m : Outcome (List Col)) (s s' : AggregateExec Col S) (b : RecordBatch Col)
      → emit_arrays acc convert_columns convert_rows try_new iterate m s ≡ (some (ok b), s')
      → s'.emitted ≡ true
  unfolding emit_arrays
  emitted_arrays (ok arrays) s s' b e =
      let accs = materialize_all acc convert_columns convert_rows try_new iterate s.accumulators in
      emitted_after (try_new s.output_schema (arrays ++ accs.0))
        (with_groups s s.group_to_index accs.1) s' b e
  emitted_arrays (err x) s s' b e = cc
  emitted_arrays panic s s' b e = cc
  emitted_arrays stuck s s' b e = cc

  emitted_finish :
      (r : Answer (AggregateExec Col S)) (s' : AggregateExec Col S) (b : RecordBatch Col)
      → finish acc convert_columns convert_rows try_new iterate r ≡ (some (ok b), s')
      → s'.emitted ≡ true
  unfolding finish
  emitted_finish (ok u, s) s' b e =
      emitted_arrays
        (group_arrays acc convert_columns convert_rows try_new iterate s.group_by_fields
          s.group_to_index)
        s s' b e
  emitted_finish (err x, s) s' b e = cc
  emitted_finish (panic, s) s' b e = cc
  emitted_finish (stuck, s) s' b e = cc

  -- A batch is the last answer: every call behind it gives `None` and changes nothing.
  pub next_batch-after :
      (s s' : AggregateExec Col S) (b : RecordBatch Col)
      → next_batch acc convert_columns convert_rows try_new iterate accept s ≡ (some (ok b), s')
      → next_batch acc convert_columns convert_rows try_new iterate accept s' ≡ (none, s')
  unfolding next_batch
  next_batch-after s s' b e = elim (Bool-cases s.emitted) [
    | inl done ↦ no_batch _ _ refl (rw done at e)
    | inr before ↦
        rw
          (emitted_finish (drain acc convert_columns convert_rows try_new iterate accept s.child s)
            s' b (sym (else_branch _ _ s.emitted before) ∙ e))
          refl
  ]
    where
      no_batch :
          {A : Type 0} (s0 : AggregateExec Col S)
          (r : Option (Outcome (RecordBatch Col)) × AggregateExec Col S)
          → r ≡ (none, s0)
          → r ≡ (some (ok b), s')
          → A
      no_batch s0 r e e' = cc

  -- The rest of the child is no matter to a round of the loop.
  accept_rows-with_child :
      (batch : RecordBatch Col) (m : Outcome (List ℕ × (ℕ × GroupMap))) (s s1 : AggregateExec Col S)
      (c : List (Outcome (RecordBatch Col)))
      → accept_rows acc convert_columns convert_rows try_new iterate accept batch m s ≡ (ok tt, s1)
      → accept_rows acc convert_columns convert_rows try_new iterate accept batch m (with_child s c)
        ≡ (ok tt, with_child s1 c)
  unfolding accept_rows
  accept_rows-with_child batch (ok (indices, (n, m))) s s1 c e =
      let fed =
        feed acc convert_columns convert_rows try_new iterate accept batch indices n
          s.accumulators in
      other_child fed.0 (with_groups s m fed.1) s1 e
    where
      answer_of : Outcome (Unit {0}) → AggregateExec Col S → Answer (AggregateExec Col S)
      answer_of o s2 = (o, s2)

      other_child :
          (o : Outcome (Unit {0})) (s2 s1 : AggregateExec Col S)
          → answer_of o s2 ≡ (ok tt, s1)
          → answer_of o (with_child s2 c) ≡ (ok tt, with_child s1 c)
      other_child o s2 s1 e = ap (λ r. answer_of r.0 (with_child r.1 c)) e
  accept_rows-with_child batch (err x) s s1 c e = cc
  accept_rows-with_child batch panic s s1 c e = cc
  accept_rows-with_child batch stuck s s1 c e = cc

  drain-with_child :
      (xs c : List (Outcome (RecordBatch Col))) (s : AggregateExec Col S)
      → drain acc convert_columns convert_rows try_new iterate accept xs (with_child s c)
        ≡ drain acc convert_columns convert_rows try_new iterate accept xs s
  unfolding drain
  drain-with_child [] c s = refl
  drain-with_child (ok batch ∷ xs) c s = refl
  drain-with_child (err e ∷ xs) c s = refl
  drain-with_child (panic ∷ xs) c s = refl
  drain-with_child (stuck ∷ xs) c s = refl

  first_round :
      (r : Answer (AggregateExec Col S)) (f : AggregateExec Col S → Answer (AggregateExec Col S))
      (s1 : AggregateExec Col S)
      → and_then r f ≡ (ok tt, s1)
      → (r ≡ (ok tt, r.1)) × (f r.1 ≡ (ok tt, s1))
  unfolding and_then
  first_round (ok u, s) f s1 e = (refl, e)
  first_round (err x, s) f s1 e = cc
  first_round (panic, s) f s1 e = cc
  first_round (stuck, s) f s1 e = cc

  drain-append :
      (bs : List (RecordBatch Col)) (tail : List (Outcome (RecordBatch Col)))
      (s s1 : AggregateExec Col S)
      → drain acc convert_columns convert_rows try_new iterate accept (map (λ b. ok b) bs) s
        ≡ (ok tt, s1)
      → drain acc convert_columns convert_rows try_new iterate accept (map (λ b. ok b) bs ++ tail) s
        ≡ drain acc convert_columns convert_rows try_new iterate accept tail s1
  unfolding drain accept_batch and_then
  drain-append [] tail s s1 e =
      sym (drain-with_child tail [] s)
      ∙ ap (λ r. drain acc convert_columns convert_rows try_new iterate accept tail r.1) e
  drain-append (b ∷ bs) tail s s1 e =
      let c = map (λ b. ok b) bs in
      let (done, rest) =
        first_round
          (accept_batch acc convert_columns convert_rows try_new iterate accept b (with_child s c))
          (λ s'. drain acc convert_columns convert_rows try_new iterate accept c s') s1 e in
      let s2 =
        (accept_batch acc convert_columns convert_rows try_new iterate accept b
          (with_child s c)).1 in
      rw
        (
          accept_rows-with_child b
              (group_rows acc convert_columns convert_rows try_new iterate s.group_by_fields
                s.group_to_index b)
              (with_child s c) s2 (c ++ tail) done,
          drain-with_child (c ++ tail) (c ++ tail) s2,
        )
        (drain-append bs tail s2 s1 rest)

  -- An error of the child, behind batches that were taken, is the answer of the call; what the
  -- batches left is kept, and the next call goes on behind the error.
  pub next_batch-err :
      (bs : List (RecordBatch Col)) (e : ExecutionError) (rest : List (Outcome (RecordBatch Col)))
      (s s1 : AggregateExec Col S)
      → s.emitted ≡ false
      → s.child ≡ map (λ b. ok b) bs ++ (err e ∷ rest)
      → drain acc convert_columns convert_rows try_new iterate accept (map (λ b. ok b) bs) s
        ≡ (ok tt, s1)
      → next_batch acc convert_columns convert_rows try_new iterate accept s
        ≡ (some (err e), with_child s1 rest)
  unfolding next_batch drain finish
  next_batch-err bs e rest s s1 before child taken =
      else_branch _ _ s.emitted before
      ∙ ap
          (λ xs.
            finish acc convert_columns convert_rows try_new iterate
              (drain acc convert_columns convert_rows try_new iterate accept xs s))
          child
      ∙ ap (finish acc convert_columns convert_rows try_new iterate)
          (drain-append bs (err e ∷ rest) s s1 taken)
