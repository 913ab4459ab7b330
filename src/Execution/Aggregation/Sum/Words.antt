-- ===== src/Execution/Aggregation/Sum/Words.antt =====
-- The wrapping sums of integer columns.
use tiny_olap.Base.{ℕ, ◌+◌, ◌%◌, ◌<◌, ◌≡◌, ap, sym, ◌∙◌, List, Option, arith}
use tiny_olap.Base.Words.{word_mod, wrapping_add}
use tiny_olap.Base.Int.{ℤ}
use tiny_olap.Execution.Aggregation.Sum.{signed_sum, unsigned_sum}
use tiny_olap.Execution.Aggregation.Sum.PerGroup.{IsSummable}
use native.Mathlib.Nat.{mod-add-mod, add-mod-mod, mod-eq_of_lt}

wrapping_add_assoc :
    (a b c : ℕ) → wrapping_add 8 (wrapping_add 8 a b) c ≡ wrapping_add 8 a (wrapping_add 8 b c)
unfolding wrapping_add
wrapping_add_assoc a b c =
    let same : a + b + c ≡ a + (b + c) = omega arith in
    mod-add-mod (a + b) (word_mod 8) c
    ∙ ap (λ n. n % word_mod 8) same
    ∙ sym (add-mod-mod a (b + c) (word_mod 8))

wrapping_add_comm : (a b : ℕ) → wrapping_add 8 a b ≡ wrapping_add 8 b a
unfolding wrapping_add
wrapping_add_comm a b = let same : a + b ≡ b + a = omega arith in ap (λ n. n % word_mod 8) same

wrapping_add-zero : (a : ℕ) → a < word_mod 8 → wrapping_add 8 a 0 ≡ a
unfolding wrapping_add
wrapping_add-zero a h = let same : a + 0 ≡ a = omega arith in rw same (mod-eq_of_lt h)

module _ {Col : Type 0} (downcast_64 : Col → Option (List ℕ)) (array_64 : List ℕ → Col) where
  pub unsigned_sum-IsSummable :
      (downcast : Col → Option (List ℕ))
      → IsSummable (unsigned_sum downcast downcast_64 array_64) (λ a. a < word_mod 8)
  unfolding unsigned_sum
  unsigned_sum-IsSummable downcast = record {
    default_word = omega arith;
    add_assoc = wrapping_add_assoc;
    add_comm = wrapping_add_comm;
    add_default = wrapping_add-zero;
  }

  pub signed_sum-IsSummable :
      (downcast : Col → Option (List ℤ))
      → IsSummable (signed_sum downcast downcast_64 array_64) (λ a. a < word_mod 8)
  unfolding signed_sum
  signed_sum-IsSummable downcast = record {
    default_word = omega arith;
    add_assoc = wrapping_add_assoc;
    add_comm = wrapping_add_comm;
    add_default = wrapping_add-zero;
  }
