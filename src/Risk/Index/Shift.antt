-- ===== src/Risk/Index/Shift.antt =====
-- One move of `remove_at`: the candidate goes back into the hole, and leaves a hole of its own.
use deterministic_exchange_r.Prelude.{
  ℕ, ◌≤◌, ◌<◌, ◌≡◌, ◌≢◌, sym, ◌∙◌, ◌⊎◌, inl, inr, arith, length-set, set, ap,
}
use deterministic_exchange_r.Risk.Index.{empty, occupied, Table, capacity, slot, advance}
use deterministic_exchange_r.Risk.Index.Arc.{
  probe_distance-injective, probe_distance_self, probe_distance-next, probe_distance-lt, advance-lt,
}
use deterministic_exchange_r.Risk.Index.Find.{HoldsAt, reach}
use deterministic_exchange_r.Risk.Index.Update.{slot-set_ne, reach-set, HoldsAt-set, set_not_empty}
use deterministic_exchange_r.Risk.Index.Remove.{Closing, ahead}

module _ (t : Table) (hole candidate stop key value : ℕ) (c : Closing t hole candidate stop)
    (e : slot t candidate ≡ occupied key value) where
  candidate_entry : HoldsAt t key value candidate
  candidate_entry = record { inside = c.candidate_in; entry = e }

  pub candidate-ne-stop : candidate ≢ stop
  candidate-ne-stop same =
      let clash : occupied key value ≡ empty = sym e ∙ ap (slot t) same ∙ c.stop_vacant in cc

  abbrev moved : Table
  moved = set t hole (occupied key value)

  size : capacity moved ≡ capacity t
  size = length-set t hole (occupied key value)

  split :
      (k w q : ℕ)
      → HoldsAt moved k w q
      → (hole ≡ q) × (k ≡ key) × (w ≡ value) ⊎ (hole ≢ q) × HoldsAt t k w q
  split = HoldsAt-set t hole key value c.hole_in

  shift-no_gap :
      (p q k w : ℕ)
      → reach t key hole < reach t key candidate
      → HoldsAt moved k w p
      → p ≢ candidate
      → q ≢ candidate
      → q < capacity t
      → reach t k q < reach t k p
      → slot moved q ≢ empty
  shift-no_gap p q k w nearer h p_apart q_apart q_in d =
      set_not_empty t hole key value c.hole_in q λ q_ne. elim (split k w p h) [
        | inl (at_hole, k_eq, _) ↦
            let d' : reach t key q < reach t key hole = rw (k_eq, ← at_hole) at d in
            c.no_gap candidate q key value candidate_entry c.started (λ s. q_ne (sym s)) q_in
              (omega arith)
        | inr (p_ne, old) ↦ c.no_gap p q k w old (λ s. p_ne (sym s)) (λ s. q_ne (sym s)) q_in d
      ]

  shift_unique :
      (p q k v w : ℕ)
      → p ≢ candidate
      → q ≢ candidate
      → HoldsAt moved k v p
      → HoldsAt moved k w q
      → p ≡ q
  shift_unique p q k v w p_apart q_apart h g = elim (split k v p h) [
    | inl (at_p, k_eq, _) ↦ elim (split k w q g) [
      | inl (at_q, _, _) ↦ sym at_p ∙ at_q
      | inr (q_ne, old) ↦ absurd (
          q_apart (
            c.unique q candidate key w value (λ s. q_ne (sym s)) c.started (rw k_eq at old)
              candidate_entry))
    ]
    | inr (p_ne, old) ↦ elim (split k w q g) [
      | inl (at_q, k_eq, _) ↦ absurd (
          p_apart (
            c.unique p candidate key v value (λ s. p_ne (sym s)) c.started (rw k_eq at old)
              candidate_entry))
      | inr (q_ne, old') ↦ c.unique p q k v w (λ s. p_ne (sym s)) (λ s. q_ne (sym s)) old old'
    ]
  ]

  -- Two positions that differ lie at least one step apart.
  one_ahead : (p : ℕ) → p < capacity t → p ≢ candidate → 1 ≤ ahead t candidate p
  one_ahead p inside apart =
      let ne : ahead t candidate candidate ≢ ahead t candidate p = λ same. apart (
        sym (
          probe_distance-injective (capacity t) candidate candidate p c.candidate_in c.candidate_in
            inside same)) in
      omega (arith, ne, probe_distance_self (capacity t) candidate)

  next_ahead : ahead t candidate (advance (capacity t) candidate 1) ≡ 1
  next_ahead =
      let two = one_ahead stop c.stop_in (λ s. candidate-ne-stop (sym s)) in
      let room = probe_distance-lt (capacity t) candidate stop c.candidate_in c.stop_in in
      let none_yet = probe_distance_self (capacity t) candidate in
      omega (
        arith,
        none_yet,
        probe_distance-next (capacity t) candidate candidate c.candidate_in c.candidate_in c.small
            (omega arith),
      )

  pub shift-Closing :
      reach t key hole < reach t key candidate
      → Closing moved candidate (advance (capacity t) candidate 1) stop
  shift-Closing nearer =
      let cap = capacity t in
      let stays = reach-set t hole in
      record {
        small = omega (arith, size, c.small);
        hole_in = omega (arith, size, c.candidate_in);
        candidate_in = omega (
          arith,
          size,
          advance-lt cap candidate 1 c.candidate_in (omega (arith, c.candidate_in)) c.small,
        );
        stop_in = omega (arith, size, c.stop_in);
        stop_vacant =
            slot-set_ne t hole (occupied key value) c.hole_in stop (λ s. c.stop_apart (sym s))
            ∙ c.stop_vacant;
        stop_apart = λ s. candidate-ne-stop (sym s);
        started = λ same.
            let self : ahead t candidate (advance cap candidate 1) ≡ 0 =
              ap (ahead t candidate) same ∙ probe_distance_self cap candidate in
            absurd (omega (arith, self, next_ahead));
        ordered =
            rw size (
              omega (arith, next_ahead, one_ahead stop c.stop_in (λ s. candidate-ne-stop (sym s))));
        no_gap = λ p q k w h p_apart q_apart q_in d.
            shift-no_gap p q k w nearer h p_apart q_apart (omega (arith, size))
              (rw (stays k q (occupied key value), stays k p (occupied key value)) at d);
        passed = λ p k w h p_apart d.
            rw size
              (omega (arith, next_ahead, one_ahead p (omega (arith, h.inside, size)) p_apart));
        unique = shift_unique;
        positive = λ p k w p_apart h. elim (split k w p h) [
          | inl (_, _, w_eq) ↦
              omega (arith, w_eq, c.positive candidate key value c.started candidate_entry)
          | inr (p_ne, old) ↦ c.positive p k w (λ s. p_ne (sym s)) old
        ];
      }
