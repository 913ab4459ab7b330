-- ===== src/Execution/WorkSource/Once.antt =====
-- Under any order of the workers' calls, every part is handed out once.
use tiny_olap.Base.{
  ℕ, zero, suc, ◌+◌, ◌%◌, ◌<◌, List, [], ◌∷◌, ◌≡◌, refl, take, take-nil, drop, length, get_elem?,
  Option, none, some, ◌⊎◌, inl, inr, arith,
}
use tiny_olap.Base.Words.{word_mod}
use tiny_olap.Execution.WorkSource.{PartWorkSource, new, next_work}
use native.Mathlib.Nat.{mod-eq_of_lt}

-- The calls in the order in which their `fetch_add` happens, each by the number of its worker, and
-- what each worker is given.
unfoldable pub run : {Part : Type 0} → List ℕ → PartWorkSource Part → List (ℕ × Option Part)
run [] s = []
run (worker ∷ calls) s = (worker, (next_work s).0) ∷ run calls (next_work s).1

unfoldable pub handed_out : {Part : Type 0} → List (ℕ × Option Part) → List Part
handed_out [] = []
handed_out ((worker, none) ∷ log) = handed_out log
handed_out ((worker, some part) ∷ log) = part ∷ handed_out log

drop_cases :
    {Part : Type 0} (k : ℕ) (parts : List Part)
    → ((p : Part) × (get_elem? parts k ≡ some p) × (drop k parts ≡ p ∷ drop (suc k) parts))
      ⊎ ((get_elem? parts k ≡ none) × (drop k parts ≡ []) × (drop (suc k) parts ≡ []))
drop_cases zero [] = inr (refl, refl, refl)
drop_cases (suc k) [] = inr (refl, refl, refl)
drop_cases zero (p ∷ parts) = inl (p, refl, refl)
drop_cases (suc k) (p ∷ parts) = drop_cases k parts

module _ {Part : Type 0} where
  run_lem :
      (calls : List ℕ) (parts : List Part) (k : ℕ)
      → k + length calls < word_mod 8
      → handed_out (run calls (record { parts = parts; next = k }))
        ≡ take (length calls) (drop k parts)
  unfolding run next_work handed_out
  run_lem [] parts k h = refl
  run_lem (worker ∷ calls) parts k h =
      let below : k + 1 < word_mod 8 = omega arith in
      let step : (k + 1) % word_mod 8 ≡ suc k = omega (arith, mod-eq_of_lt below) in
      let ih = run_lem calls parts (suc k) (omega arith) in
      elim (drop_cases k parts) [
        | inl (p, e, d) ↦ rw (e, step, ih, d) refl
        | inr (e, d, d') ↦ rw (e, step, ih, d, d', take-nil (length calls)) refl
      ]

  -- Under fewer than 2 ^ 64 calls, in any order of the workers, the parts handed out are the first
  -- ones of the list, as many as there are calls, each once and in order.
  pub handed_out-run :
      (calls : List ℕ) (parts : List Part)
      → length calls < word_mod 8
      → handed_out (run calls (new parts)) ≡ take (length calls) parts
  unfolding new
  handed_out-run calls parts h = run_lem calls parts 0 (omega arith)
