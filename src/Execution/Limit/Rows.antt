-- ===== src/Execution/Limit/Rows.antt =====
-- The rows that come out of a limit.
use tiny_olap.Base.{
  ℕ, zero, suc, ◌+◌, ◌-◌, ◌≤◌, ◌<◌, List, [], ◌∷◌, ◌++◌, append-nil, map, flatten, ◌≡◌, refl, sym,
  ap, take, take-nil, take_inside, take_past, length, leb, Option, none, some, true, false, ok, err,
  panic, stuck, ◌>>=◌, Bool-cases, inl, inr, arith,
}
use tiny_olap.Execution.Batch.{Outcome}
use tiny_olap.Execution.Limit.{Batches, IsBatches, LimitExec, new, pass_or_cut, pull, next_batch}

module _ {B Row : Type 0} (batches : Batches B Row) where
  -- One answer of the operator, before the rows of the later ones; an error ends it.
  answer : Option (Outcome B) → Outcome (List Row) → Outcome (List Row)
  answer none rest = ok []
  answer (some (ok b)) rest = rest >>= λ rows. ok (batches.rows b ++ rows)
  answer (some (err e)) rest = err e
  answer (some panic) rest = panic
  answer (some stuck) rest = stuck

  -- The rows of all answers until the `None`.
  unfoldable pub drain : ℕ → LimitExec B → Outcome (List Row)
  unfolding answer
  drain zero s = stuck
  drain (suc fuel) s =
      let rest = drain fuel (next_batch batches s).1 in answer (next_batch batches s).0 rest

  abbrev state : ℕ → ℕ → List B → LimitExec B
  state n emitted bs = record { limit = n; emitted = emitted; child = map ok bs }

  module _ (laws : IsBatches batches) where
    exhausted : (fuel n : ℕ) (bs : List B) → 0 < fuel → drain fuel (state n n bs) ≡ ok []
    unfolding drain next_batch
    exhausted zero n bs h = absurd (omega arith)
    exhausted (suc fuel) n bs h = ground arith

    drain_lem :
        (fuel n emitted : ℕ) (bs : List B)
        → length bs < fuel
        → emitted ≤ n
        → drain fuel (state n emitted bs) ≡ ok (take (n - emitted) (flatten (map batches.rows bs)))
    unfolding drain next_batch pull pass_or_cut answer
    drain_lem zero n emitted bs h bound = absurd (omega arith)
    drain_lem (suc fuel) n emitted [] h bound = elim (Bool-cases (leb n emitted)) [
      | inl e ↦ rw (e, take-nil (n - emitted)) refl
      | inr e ↦ rw (e, take-nil (n - emitted)) refl
    ]
    drain_lem (suc fuel) n emitted (b ∷ bs) h bound = elim (Bool-cases (leb n emitted)) [
      | inl e ↦ nothing_left e
      | inr e ↦ elim (Bool-cases (leb (length (batches.rows b)) (n - emitted))) [
        | inl f ↦
            passed e f
              (drain_lem fuel n (emitted + length (batches.rows b)) bs (omega arith) (ground arith))
        | inr f ↦ cut e f
      ]
    ]
      where
        later : List Row
        later = flatten (map batches.rows bs)

        Drained : Type 0
        Drained =
            drain (suc fuel) (state n emitted (b ∷ bs))
            ≡ ok (take (n - emitted) (batches.rows b ++ later))

        nothing_left : leb n emitted ≡ true → Drained
        nothing_left e = let none_left : n - emitted ≡ 0 = ground arith in rw (e, none_left) refl

        passed :
            leb n emitted ≡ false
            → leb (length (batches.rows b)) (n - emitted) ≡ true
            → drain fuel (state n (emitted + length (batches.rows b)) bs)
              ≡ ok (take (n - (emitted + length (batches.rows b))) later)
            → Drained
        passed e f ih =
            let after = emitted + length (batches.rows b) in
            rw (e, f, ih)
              (ap (λ t. ok t)
                (sym (take_past (n - emitted) (n - after) (batches.rows b) later (ground arith))))

        cut : leb n emitted ≡ false → leb (length (batches.rows b)) (n - emitted) ≡ false → Drained
        cut e f =
            rw
              (
                e,
                f,
                exhausted fuel n bs (omega arith),
                laws.rows-slice b 0 (n - emitted),
                append-nil (take (n - emitted) (batches.rows b)),
                take_inside (n - emitted) (batches.rows b) later (ground arith),
              )
              refl

    -- Over a child without errors the calls come to the `None`, and the rows of the answers before it
    -- are the first `n` rows of the child.
    pub drain-new :
        (n : ℕ) (bs : List B)
        → drain (suc (length bs)) (new n (map ok bs)) ≡ ok (take n (flatten (map batches.rows bs)))
    unfolding new
    drain-new n bs =
        let whole : n - 0 ≡ n = omega arith in
        let drained = drain_lem (suc (length bs)) n 0 bs (omega arith) (omega arith) in
        rw whole at drained
