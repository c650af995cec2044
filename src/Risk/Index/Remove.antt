-- ===== src/Risk/Index/Remove.antt =====
-- `remove_at`: closing a hole by moving entries back into it.
use deterministic_exchange_r.Prelude.{ℕ, ◌≤◌, ◌<◌, ◌≡◌, ◌≢◌, sym, ◌∙◌, arith, length-set, set, ap}
use deterministic_exchange_r.Prelude.Words.{u32_mod}
use native.Mathlib.Decide.{ℕ_discrete}
use deterministic_exchange_r.Risk.Index.{
  empty, occupied, Table, capacity, slot, probe_start, probe_distance, advance,
}
use deterministic_exchange_r.Risk.Index.Arc.{
  probe_start-lt, probe_distance-split, probe_distance-sum, probe_distance-injective,
  probe_distance_self, probe_distance-next, probe_distance-lt, advance-lt,
}
use deterministic_exchange_r.Risk.Index.Find.{HoldsAt, IsValid, reach}
use deterministic_exchange_r.Risk.Index.Update.{slot-set_self, slot-set_ne, reach-set}

-- how far a position lies behind another
abbrev pub ahead : Table → ℕ → ℕ → ℕ
ahead t from p = probe_distance (capacity t) from p

-- The table while the hole is open and the scan stands at the candidate. What the hole itself holds
-- does not count; `stop` is a free slot that the scan has yet to reach.
pub record Closing (t : Table) (hole candidate stop : ℕ) : Type 0 where
  pub small : capacity t ≤ u32_mod
  pub hole_in : hole < capacity t
  pub candidate_in : candidate < capacity t
  pub stop_in : stop < capacity t
  pub stop_vacant : slot t stop ≡ empty
  pub stop_apart : stop ≢ hole
  pub started : candidate ≢ hole
  pub ordered : ahead t hole candidate ≤ ahead t hole stop
  pub no_gap :
      (p q key value : ℕ)
      → HoldsAt t key value p
      → p ≢ hole
      → q ≢ hole
      → q < capacity t
      → reach t key q < reach t key p
      → slot t q ≢ empty
  -- an entry that lies beyond the hole from its home is yet to be scanned
  pub passed :
      (p key value : ℕ)
      → HoldsAt t key value p
      → p ≢ hole
      → reach t key hole < reach t key p
      → ahead t hole candidate ≤ ahead t hole p
  pub unique :
      (p q key v w : ℕ) → p ≢ hole → q ≢ hole → HoldsAt t key v p → HoldsAt t key w q → p ≡ q
  pub positive : (p key value : ℕ) → p ≢ hole → HoldsAt t key value p → 0 < value

home_in : (t : Table) (key p : ℕ) → p < capacity t → probe_start (capacity t) key < capacity t
home_in t key p h = probe_start-lt (capacity t) key (omega arith)

-- The scan meets a free slot: the hole can be emptied.
module _ (t : Table) (hole candidate stop : ℕ) (c : Closing t hole candidate stop) where
  finish-no_gap :
      (p q key value : ℕ)
      → slot t candidate ≡ empty
      → HoldsAt t key value p
      → p ≢ hole
      → q < capacity t
      → reach t key q < reach t key p
      → q ≢ hole
  finish-no_gap p q key value vacant h apart q_in d e =
      let cap = capacity t in
      let home = probe_start cap key in
      let home_lt = home_in t key p h.inside in
      let d' : reach t key hole < reach t key p = rw e at d in
      let far = c.passed p key value h apart d' in
      let at_p = probe_distance-split cap home hole p home_lt c.hole_in h.inside (omega arith) in
      elim (ℕ_discrete (ahead t hole candidate) (ahead t hole p)) [
        | yes same ↦
            let meet =
              probe_distance-injective cap hole candidate p c.hole_in c.candidate_in h.inside
                same in
            let clash : empty ≡ occupied key value = sym vacant ∙ ap (slot t) meet ∙ h.entry in cc
        | no differ ↦
            c.no_gap p candidate key value h apart c.started c.candidate_in
              (let near =
                  probe_distance-sum cap home hole candidate home_lt c.hole_in c.candidate_in
                    (omega (arith, at_p, probe_distance-lt cap home p home_lt h.inside)) in
                omega (arith, near, at_p))
              vacant
      ]

module _ (t : Table) (hole : ℕ) (inside : hole < capacity t) where
  pub HoldsAt-clear : (k w q : ℕ) → HoldsAt (set t hole empty) k w q → (q ≢ hole) × HoldsAt t k w q
  HoldsAt-clear k w q h =
      let apart : hole ≢ q = λ e.
        let clash : empty ≡ occupied k w =
          sym (slot-set_self t hole empty inside) ∙ ap (slot (set t hole empty)) e ∙ h.entry in
        cc in
      (
        (λ e. apart (sym e)),
        record {
          inside = omega (arith, h.inside, length-set t hole empty);
          entry = sym (slot-set_ne t hole empty inside q apart) ∙ h.entry;
        },
      )

  pub HoldsAt-clear' : (k w q : ℕ) → q ≢ hole → HoldsAt t k w q → HoldsAt (set t hole empty) k w q
  HoldsAt-clear' k w q apart h = record {
    inside = omega (arith, h.inside, length-set t hole empty);
    entry = slot-set_ne t hole empty inside q (λ e. apart (sym e)) ∙ h.entry;
  }

-- With the hole emptied the table is valid again.
pub finish-IsValid :
    (t : Table) (hole candidate stop : ℕ)
    → Closing t hole candidate stop
    → slot t candidate ≡ empty
    → IsValid (set t hole empty)
finish-IsValid t hole candidate stop c vacant =
    let size = length-set t hole empty in
    let back = HoldsAt-clear t hole c.hole_in in
    record {
      small = omega (arith, size, c.small);
      no_gap = λ p q k w h q_in d.
          let old = back k w p h in
          let q_in' : q < capacity t = omega (arith, size) in
          let d' : reach t k q < reach t k p =
            rw (reach-set t hole k q empty, reach-set t hole k p empty) at d in
          let apart = finish-no_gap t hole candidate stop c p q k w vacant old.1 old.0 q_in' d' in
          let taken = c.no_gap p q k w old.1 old.0 apart q_in' d' in
          (λ gap. taken (sym (slot-set_ne t hole empty c.hole_in q (λ e. apart (sym e))) ∙ gap));
      unique = λ p q k v w h g.
          let old = back k v p h in
          let old' = back k w q g in c.unique p q k v w old.0 old'.0 old.1 old'.1;
      positive = λ p k w h. let old = back k w p h in c.positive p k w old.0 old.1;
    }

-- The candidate is on its own side of the hole, and stays.
pub skip-Closing :
    (t : Table) (hole candidate stop key value : ℕ)
    → Closing t hole candidate stop
    → slot t candidate ≡ occupied key value
    → reach t key candidate ≤ reach t key hole
    → Closing t hole (advance (capacity t) candidate 1) stop
skip-Closing t hole candidate stop key value c e stays =
    let cap = capacity t in
    let apart : candidate ≢ stop = λ same.
      let clash : occupied key value ≡ empty = sym e ∙ ap (slot t) same ∙ c.stop_vacant in cc in
    let strict : ahead t hole candidate ≢ ahead t hole stop = λ same.
      apart (
        probe_distance-injective cap hole candidate stop c.hole_in c.candidate_in c.stop_in same) in
    let room = probe_distance-lt cap hole stop c.hole_in c.stop_in in
    let step =
      probe_distance-next cap hole candidate c.hole_in c.candidate_in c.small
        (omega (arith, c.ordered, strict, room)) in
    record {
      small = c.small;
      hole_in = c.hole_in;
      candidate_in =
          advance-lt cap candidate 1 c.candidate_in (omega (arith, c.candidate_in)) c.small;
      stop_in = c.stop_in;
      stop_vacant = c.stop_vacant;
      stop_apart = c.stop_apart;
      started = λ same.
          let zero_ahead : ahead t hole (advance cap candidate 1) ≡ 0 =
            ap (ahead t hole) same ∙ probe_distance_self cap hole in
          absurd (omega (arith, zero_ahead, step));
      ordered = omega (arith, step, c.ordered, strict);
      no_gap = c.no_gap;
      passed = λ p k v h p_apart d.
          let far = c.passed p k v h p_apart d in
          let ne : ahead t hole candidate ≢ ahead t hole p = λ same.
            let meet =
              probe_distance-injective cap hole candidate p c.hole_in c.candidate_in h.inside
                same in
            let both : occupied key value ≡ occupied k v = sym e ∙ ap (slot t) meet ∙ h.entry in
            let keys : key ≡ k = cc in
            let stays' : reach t k p ≤ reach t k hole = rw (keys, meet) at stays in
            absurd (omega arith) in
          omega (arith, far, step, ne);
      unique = c.unique;
      positive = c.positive;
    }
