-- ===== src/Risk/Index/Close.antt =====
-- The loop of `remove_at` ends, and what it leaves is a valid table with the same other keys.
use deterministic_exchange_r.Prelude.{
  ℕ, ◌-◌, ◌<◌, ◌≡◌, ◌≢◌, sym, ◌∙◌, inl, inr, arith, length-set, set, ap,
}
use native.Mathlib.Decide.{ℕ_discrete}
use deterministic_exchange_r.Risk.Index.{empty, occupied, Table, capacity, slot}
use deterministic_exchange_r.Risk.Index.Find.{HoldsAt, IsValid}
use deterministic_exchange_r.Risk.Index.Update.{
  HoldsAt-set, HoldsAt-self, HoldsAt-other, slot-set_self,
}
use deterministic_exchange_r.Risk.Index.Remove.{
  Closing, HoldsAt-clear, HoldsAt-clear', finish-IsValid,
}

-- The caller's state, as far as the table is concerned: `Pos r key slot flat` says that the slot
-- belongs to the key and knows that the key stands at the flat position. The closure must tell the
-- slot of a moved key its new position, and leave those of other keys, and `Kept`, alone.
pub record Tracks {R : Type 0} (update : ℕ → ℕ → ℕ → R → R) : Type 1 where
  pub Pos : R → ℕ → ℕ → ℕ → Type 0
  pub Kept : R → Type 0
  pub told : (r : R) (k s p p' : ℕ) → Pos r k s p → Pos (update k s p' r) k s p'
  pub others :
      (r : R) (k s p p' k2 s2 p2 : ℕ)
      → Pos r k s p
      → Pos r k2 s2 p2
      → k ≢ k2
      → Pos (update k s p' r) k2 s2 p2
  pub keeps : (r : R) (k s p p' : ℕ) → Pos r k s p → Kept r → Kept (update k s p' r)

module _ {R : Type 0} (update : ℕ → ℕ → ℕ → R → R) (tracks : Tracks update) where
  open tracks use {Pos, Kept, told, others, keeps}

  -- Every entry but the hole's is known to its slot.
  abbrev pub Linked : Table → ℕ → R → Type 0
  Linked t hole r = (k w p : ℕ) → p ≢ hole → HoldsAt t k w p → Pos r k (w - 1) p

  pub record Closed (t : Table) (hole : ℕ) (t' : Table) (r' : R) : Type 0 where
    pub valid : IsValid t'
    pub same_capacity : capacity t' ≡ capacity t
    pub kept : (k w p : ℕ) → p ≢ hole → HoldsAt t k w p → (q : ℕ) × HoldsAt t' k w q
    pub none_new : (k w q : ℕ) → HoldsAt t' k w q → (p : ℕ) × (p ≢ hole) × HoldsAt t k w p
    pub linked : (k w q : ℕ) → HoldsAt t' k w q → Pos r' k (w - 1) q
    pub rest : Kept r'
    pub room : (p : ℕ) × (p < capacity t') × (slot t' p ≡ empty)

  pub finish-Closed :
      (t : Table) (hole candidate stop : ℕ) (r : R)
      → Closing t hole candidate stop
      → slot t candidate ≡ empty
      → Linked t hole r
      → Kept r
      → Closed t hole (set t hole empty) r
  finish-Closed t hole candidate stop r c vacant linked kept =
      let back = HoldsAt-clear t hole c.hole_in in
      record {
        valid = finish-IsValid t hole candidate stop c vacant;
        same_capacity = length-set t hole empty;
        kept = λ k w p apart h. (p, HoldsAt-clear' t hole c.hole_in k w p apart h);
        none_new = λ k w q h. (q, (back k w q h).0, (back k w q h).1);
        linked = λ k w q h. linked k w q (back k w q h).0 (back k w q h).1;
        rest = kept;
        room = (
          hole,
          omega (arith, c.hole_in, length-set t hole empty),
          slot-set_self t hole empty c.hole_in,
        );
      }

  module _ (t : Table) (hole candidate stop key value : ℕ) (r : R)
      (c : Closing t hole candidate stop) (e : slot t candidate ≡ occupied key value)
      (linked : Linked t hole r) where
    here : HoldsAt t key value candidate
    here = record { inside = c.candidate_in; entry = e }

    here_linked : Pos r key (value - 1) candidate
    here_linked = linked key value candidate c.started here

    pub shift-Linked :
        Linked (set t hole (occupied key value)) candidate (update key (value - 1) hole r)
    shift-Linked k w p apart h = elim (HoldsAt-set t hole key value c.hole_in k w p h) [
      | inl (at_hole, k_eq, w_eq) ↦
          rw (k_eq, w_eq, ← at_hole) (told r key (value - 1) candidate hole here_linked)
      | inr (p_ne, old) ↦
          let p_apart : p ≢ hole = λ s. p_ne (sym s) in
          let distinct : key ≢ k = λ s.
            apart (c.unique p candidate key w value p_apart c.started (rw (← s) at old) here) in
          others r key (value - 1) candidate hole k (w - 1) p here_linked (linked k w p p_apart old)
            distinct
    ]

    -- What the rest of the loop makes of the shifted table is right for the table before.
    pub shift-Closed :
        (t' : Table) (r' : R)
        → Closed (set t hole (occupied key value)) candidate t' r'
        → Closed t hole t' r'
    shift-Closed t' r' d =
        let moved = set t hole (occupied key value) in
        record {
          valid = d.valid;
          same_capacity = d.same_capacity ∙ length-set t hole (occupied key value);
          kept = λ k w p apart h. elim (ℕ_discrete p candidate) [
            | yes at ↦
                let both : occupied key value ≡ occupied k w =
                  sym e ∙ ap (slot t) (sym at) ∙ h.entry in
                let k_eq : key ≡ k = cc in
                let w_eq : value ≡ w = cc in
                d.kept k w hole (λ s. c.started (sym s))
                  (rw (← k_eq, ← w_eq) (HoldsAt-self t hole key value c.hole_in))
            | no p_ne ↦
                d.kept k w p p_ne
                  (HoldsAt-other t hole key value c.hole_in k w p (λ s. apart (sym s)) h)
          ];
          none_new = λ k w q h.
              let (p, apart, old) = d.none_new k w q h in
              elim (HoldsAt-set t hole key value c.hole_in k w p old) [
                | inl (_, k_eq, w_eq) ↦ (candidate, c.started, rw (k_eq, w_eq) here)
                | inr (p_ne, old') ↦ (p, (λ s. p_ne (sym s)), old')
              ];
          linked = d.linked;
          rest = d.rest;
          room = d.room;
        }
