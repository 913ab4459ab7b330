-- ===== src/Execution/Aggregation/Extremum/PerGroup.antt =====
-- A minimum or maximum accumulator holds, for each group, the best value of its rows.
use tiny_olap.Base.{
  ℕ, zero, suc, ◌<◌, ◌≤◌, ◌≡◌, refl, ap, sym, ◌∙◌, inl, inr, Bool, true, false, List, [], ◌∷◌, ◌==◌,
  ==_iff, length, Option, none, some, get_elem?, All, Bool-cases, if◌then◌else◌, ok, arith,
}
use tiny_olap.Storage.ColumnWriter.Bounds.{IsOrder}
use tiny_olap.Execution.Aggregation.Slots.{at}
use tiny_olap.Execution.Aggregation.Slots.Rows.{foldl, group_values, modify_inside}
use tiny_olap.Execution.Aggregation.Extremum.{
  Ordered, Slots, store, improve, take_value, take_values, take_partial,
}

-- The value of a slot, once there is one.
abbrev pub value_of : {N : Type 0} → Bool → N → Option N
value_of true r = some r
value_of false r = none

module _ {Col N : Type 0} (t : Ordered Col N) where
  -- The best of a value and those before it.
  abbrev pub best_of : Option N → N → Option N
  best_of none v = some v
  best_of (some r) v = some (if t.better v r then v else r)

  join : Option N → Option N → Option N
  join o none = o
  join o (some p) = best_of o p

  module _ (order : IsOrder t.better) where
    below_both : (a b c : N) → t.better a b ≡ true → t.better b c ≡ true → t.better a c ≡ true
    below_both a b c ab bc = elim (Bool-cases (t.better a c)) [
      | inl e ↦ e
      | inr e ↦
          let contrary = order.not_below a c b e (order.asymmetric b c bc) in
          absurd (both_ways (t.better a b) ab contrary)
    ]
      where
        both_ways : (c : Bool) → c ≡ true → c ≡ false → ⊥
        both_ways c e e' = cc

    best_of_assoc :
        (o : Option N) (p v : N)
        → best_of (best_of o p) v ≡ best_of o (if t.better v p then v else p)
    best_of_assoc none p v = refl
    best_of_assoc (some r) p v = elim (Bool-cases (t.better p r)) [
      | inl pr ↦ elim (Bool-cases (t.better v p)) [
        | inl vp ↦ rw (pr, vp, below_both v p r vp pr) refl
        | inr vp ↦ rw (pr, vp, pr) refl
      ]
      | inr pr ↦ elim (Bool-cases (t.better v p)) [
        | inl vp ↦ rw (pr, vp) refl
        | inr vp ↦ rw (pr, vp, order.not_below v p r vp pr, pr) refl
      ]
    ]

    join-foldl :
        (o : Option N) (p : N) (vs : List N)
        → foldl best_of (best_of o p) vs ≡ join o (foldl best_of (some p) vs)
    unfolding join
    join-foldl o p [] = refl
    join-foldl o p (v ∷ vs) =
        ap (λ b. foldl best_of b vs) (best_of_assoc o p v)
        ∙ join-foldl o (if t.better v p then v else p) vs

    join-best : (o : Option N) (vs : List N) → join o (foldl best_of none vs) ≡ foldl best_of o vs
    unfolding join
    join-best o [] = refl
    join-best o (v ∷ vs) = sym (join-foldl o v vs)

  -- What the slot of a group holds after a step.
  pub record Taken (has : List Bool) (running : List N) (slots : Slots N)
      (f : ℕ → Option N → Option N) : Type 0 where
    pub has_length : length slots.0 ≡ length has
    pub running_length : length slots.1 ≡ length running
    pub holds :
        (g : ℕ) (b : Bool) (r : N)
        → get_elem? has g ≡ some b
        → get_elem? running g ≡ some r
        → (b' : Bool) × (r' : N) × (get_elem? slots.0 g ≡ some b')
          × (get_elem? slots.1 g ≡ some r')
          × (value_of b' r' ≡ f g (value_of b r))

  at_inside :
      {A : Type 0} (xs : List A) (i : ℕ)
      → i < length xs
      → (x : A) × (at xs i ≡ ok x) × (get_elem? xs i ≡ some x)
  unfolding at
  at_inside [] i h = absurd (omega arith)
  at_inside (x ∷ xs) zero h = (x, refl, refl)
  at_inside (x ∷ xs) (suc i) h = at_inside xs i (omega arith)

  same_element : {A : Type 0} {m : Option A} (x y : A) → m ≡ some x → m ≡ some y → x ≡ y
  same_element x y e e' = cc

  take_value-Taken :
      (gi : ℕ) (v : N) (has : List Bool) (running : List N)
      → gi < length has
      → gi < length running
      → (slots : Slots N) × (take_value t gi v (has, running) ≡ ok slots)
        × Taken has running slots (λ g o. if gi == g then best_of o v else o)
  unfolding take_value store improve
  take_value-Taken gi v has running in_has in_running =
      let (seen, at_has, has_at) = at_inside has gi in_has in
      let (m, at_running, running_at) = at_inside running gi in_running in
      elim (Bool-cases seen) [
        | inl old ↦
            let (running', e, size, own, others) =
              modify_inside (λ r. if t.better v r then v else r) gi running in_running in
            (
              (has, running'),
              rw (at_has, old, at_running, e) refl,
              record {
                has_length = refl;
                running_length = size;
                holds = λ g b r hb hr. elim (Bool-cases (gi == g)) [
                  | inl mine ↦
                      let same : gi ≡ g = (==_iff gi g).0 mine in
                      let is_old : b ≡ true = same_element b seen hb (rw (← same) has_at) ∙ old in
                      (
                        b,
                        (if t.better v r then v else r),
                        hb,
                        rw (← same) (own r (rw same hr)),
                        rw (mine, is_old) refl,
                      )
                  | inr other ↦ (b, r, hb, others g other ∙ hr, rw other refl)
                ];
              },
            )
        | inr new ↦
            let (running', e, size, own, others) = modify_inside (λ _. v) gi running in_running in
            let (has', e', size', own', others') = modify_inside (λ _. true) gi has in_has in
            (
              (has', running'),
              rw (at_has, new, e, e') refl,
              record {
                has_length = size';
                running_length = size;
                holds = λ g b r hb hr. elim (Bool-cases (gi == g)) [
                  | inl mine ↦
                      let same : gi ≡ g = (==_iff gi g).0 mine in
                      let is_new : b ≡ false = same_element b seen hb (rw (← same) has_at) ∙ new in
                      (
                        true,
                        v,
                        rw (← same) (own' b (rw same hb)),
                        rw (← same) (own r (rw same hr)),
                        rw (mine, is_new) refl,
                      )
                  | inr other ↦ (b, r, others' g other ∙ hb, others g other ∙ hr, rw other refl)
                ];
              },
            )
      ]

  pub take_values-Taken :
      (gis : List ℕ) (vs : List N) (has : List Bool) (running : List N)
      → All (λ gi. gi < length has) gis
      → All (λ gi. gi < length running) gis
      → length gis ≤ length vs
      → (slots : Slots N) × (take_values t gis vs (has, running) ≡ ok slots)
        × Taken has running slots (λ g o. foldl best_of o (group_values g gis vs))
  unfolding take_values group_values
  take_values-Taken [] vs has running in_has in_running enough = (
    (has, running),
    refl,
    record {
      has_length = refl;
      running_length = refl;
      holds = λ g b r hb hr. (b, r, hb, hr, refl);
    },
  )
  take_values-Taken (gi ∷ gis) [] has running in_has in_running enough = absurd (omega arith)
  take_values-Taken (gi ∷ gis) (v ∷ vs) has running (has_first, in_has) (running_first, in_running)
        enough =
      let (slots, e, first) = take_value-Taken gi v has running has_first running_first in
      let (slots', e', later) =
        take_values-Taken gis vs slots.0 slots.1 (rw first.has_length in_has)
          (rw first.running_length in_running) (omega arith) in
      (
        slots',
        rw (e, e') refl,
        record {
          has_length = later.has_length ∙ first.has_length;
          running_length = later.running_length ∙ first.running_length;
          holds = λ g b r hb hr.
              let (b1, r1, hb1, hr1, v1) = first.holds g b r hb hr in
              let (b2, r2, hb2, hr2, v2) = later.holds g b1 r1 hb1 hr1 in
              (
                b2,
                r2,
                hb2,
                hr2,
                v2
                    ∙ ap (λ o. foldl best_of o (group_values g gis vs)) v1
                    ∙ with_first g (gi == g) (value_of b r),
              );
        },
      )
    where
      with_first :
          (g : ℕ) (mine : Bool) (o : Option N)
          → foldl best_of (if mine then best_of o v else o) (group_values g gis vs)
            ≡ foldl best_of o (if mine then v ∷ group_values g gis vs else group_values g gis vs)
      with_first g true o = refl
      with_first g false o = refl

  module _ (order : IsOrder t.better)
      (best : (vs : List N) → t.best vs ≡ foldl best_of none vs) where
    pub take_partial-Taken :
        (vs : List N) (has : List Bool) (running : List N) (found : Option N)
        → t.best vs ≡ found
        → 0 < length has
        → 0 < length running
        → (slots : Slots N) × (take_partial t found (has, running) ≡ ok slots)
          × Taken has running slots (λ g o. if 0 == g then foldl best_of o vs else o)
    unfolding take_partial join
    take_partial-Taken vs has running none e in_has in_running = (
      (has, running),
      refl,
      record {
        has_length = refl;
        running_length = refl;
        holds = λ g b r hb hr. (b, r, hb, hr, sym (no_values (0 == g) (value_of b r)));
      },
    )
      where
        no_values : (mine : Bool) (o : Option N) → (if mine then foldl best_of o vs else o) ≡ o
        no_values true o = sym (join-best order o vs) ∙ ap (join o) (sym (best vs) ∙ e)
        no_values false o = refl
    take_partial-Taken vs has running (some p) e in_has in_running =
        let (slots, e', taken) = take_value-Taken 0 p has running in_has in_running in
        (
          slots,
          e',
          record {
            has_length = taken.has_length;
            running_length = taken.running_length;
            holds = λ g b r hb hr.
                let (b', r', hb', hr', v') = taken.holds g b r hb hr in
                (b', r', hb', hr', v' ∙ all_values (0 == g) (value_of b r));
          },
        )
      where
        all_values :
            (mine : Bool) (o : Option N)
            → (if mine then best_of o p else o) ≡ (if mine then foldl best_of o vs else o)
        all_values true o = ap (join o) (sym e ∙ best vs) ∙ join-best order o vs
        all_values false o = refl
