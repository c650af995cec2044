-- ===== src/Risk/Index/Removal.antt =====
-- `remove_at` as a whole.
use deterministic_exchange_r.Prelude.{
  ℕ, zero, suc, ◌+◌, ◌-◌, ◌≤◌, ◌<◌, ◌≡◌, ◌≢◌, refl, sym, ◌∙◌, inl, inr, some, ==_iff, ltb, leb,
  arith, length-set, set, ap, true, false,
}
use deterministic_exchange_r.Prelude.Words.{u32_mod}
use native.Mathlib.Decide.{dec_lt}
use deterministic_exchange_r.Risk.Index.{
  empty, occupied, Table, capacity, slot, advance, close_hole, remove_at,
}
use deterministic_exchange_r.Risk.Index.Arc.{
  probe_distance-toward, probe_distance-next, probe_distance-lt, advance-lt,
  probe_distance-injective, probe_distance_self,
}
use deterministic_exchange_r.Risk.Index.Find.{HoldsAt, IsValid, reach, slot-cases}
use deterministic_exchange_r.Risk.Index.Remove.{Closing, ahead, skip-Closing}
use deterministic_exchange_r.Risk.Index.Shift.{shift-Closing, candidate-ne-stop}
use deterministic_exchange_r.Risk.Index.Close.{
  Tracks, Linked, Closed, finish-Closed, shift-Linked, shift-Closed,
}

-- The scan starts just after the entry that goes.
start-Closing :
    (t : Table) (key value hole stop : ℕ)
    → IsValid t
    → HoldsAt t key value hole
    → stop < capacity t
    → slot t stop ≡ empty
    → Closing t hole (advance (capacity t) hole 1) stop
start-Closing t key value hole stop valid held stop_in vacant =
    let cap = capacity t in
    let apart : stop ≢ hole = λ same.
      let clash : empty ≡ occupied key value = sym vacant ∙ ap (slot t) same ∙ held.entry in cc in
    let self = probe_distance_self cap hole in
    let differ : (p : ℕ) → p < cap → p ≢ hole → 1 ≤ ahead t hole p = λ p p_in ne.
      let ne' : ahead t hole hole ≢ ahead t hole p = λ same.
        ne (sym (probe_distance-injective cap hole hole p held.inside held.inside p_in same)) in
      omega (arith, ne', self) in
    let to_stop = differ stop stop_in apart in
    let next =
      probe_distance-next cap hole hole held.inside held.inside valid.small
        (omega (arith, self, to_stop, probe_distance-lt cap hole stop held.inside stop_in)) in
    record {
      small = valid.small;
      hole_in = held.inside;
      candidate_in = advance-lt cap hole 1 held.inside (omega (arith, held.inside)) valid.small;
      stop_in = stop_in;
      stop_vacant = vacant;
      stop_apart = apart;
      started = λ same.
          let none_yet : ahead t hole (advance cap hole 1) ≡ 0 = ap (ahead t hole) same ∙ self in
          absurd (omega (arith, none_yet, next, self));
      ordered = omega (arith, next, self, to_stop);
      no_gap = λ p q k w h p_apart q_apart q_in d. valid.no_gap p q k w h q_in d;
      passed = λ p k w h p_apart d. omega (arith, next, self, differ p h.inside p_apart);
      unique = λ p q k v w p_apart q_apart h g. valid.unique p q k v w h g;
      positive = λ p k w p_apart h. valid.positive p k w h;
    }

module _ {R : Type 0} (update : ℕ → ℕ → ℕ → R → R) (tracks : Tracks update) where
  open tracks use {Pos, Kept, told, others, keeps}

  -- Fuel for the distance to the free slot ahead is enough.
  close_hole-Closed :
      (fuel : ℕ) (t : Table) (hole candidate stop : ℕ) (r : R)
      → Closing t hole candidate stop
      → Linked update tracks t hole r
      → Kept r
      → ahead t candidate stop < fuel
      → (t' : Table) × (r' : R) × (close_hole update fuel t hole candidate r ≡ some (t', r'))
        × Closed update tracks t hole t' r'
  unfolding close_hole
  close_hole-Closed zero t hole candidate stop r c linked kept enough = absurd (omega arith)
  close_hole-Closed (suc fuel) t hole candidate stop r c linked kept enough =
      elim (slot-cases (slot t candidate)) [
        | inl vacant ↦ (
          set t hole empty,
          r,
          rw (close_hole, vacant),
          finish-Closed update tracks t hole candidate stop r c vacant linked kept,
        )
        | inr (key, value, e) ↦
            let next = advance (capacity t) candidate 1 in
            let moved = set t hole (occupied key value) in
            let closer : ahead t next stop + 1 ≡ ahead t candidate stop =
              probe_distance-toward (capacity t) candidate stop c.candidate_in c.stop_in c.small
                (candidate-ne-stop t hole candidate stop key value c e) in
            let size : capacity moved ≡ capacity t = length-set t hole (occupied key value) in
            elim (dec_lt (reach t key hole) (reach t key candidate)) [
              | yes nearer ↦
                  let r2 = update key (value - 1) hole r in
                  let test : ltb (reach t key hole) (reach t key candidate) ≡ true = ground arith in
                  let small_hole : ltb hole u32_mod ≡ true = ground (arith, c.hole_in, c.small) in
                  let same : ahead moved next stop ≡ ahead t next stop = rw size in
                  let known =
                    linked key value candidate c.started
                      (record { inside = c.candidate_in; entry = e }) in
                  let (t', r', result, closed) =
                    close_hole-Closed fuel moved candidate next stop r2
                      (shift-Closing t hole candidate stop key value c e nearer)
                      (shift-Linked update tracks t hole candidate stop key value r c e linked)
                      (keeps r key (value - 1) candidate hole known kept)
                      (omega (arith, same, closer)) in
                  (
                    t',
                    r',
                    rw (close_hole, e, test, small_hole) result,
                    shift-Closed update tracks t hole candidate stop key value r c e linked t' r'
                        closed,
                  )
              | no stays ↦
                  let test : ltb (reach t key hole) (reach t key candidate) ≡ false =
                    ground arith in
                  let (t', r', result, closed) =
                    close_hole-Closed fuel t hole next stop r
                      (skip-Closing t hole candidate stop key value c e (omega arith)) linked kept
                      (omega (arith, closer)) in
                  (t', r', rw (close_hole, e, test) result, closed)
            ]
      ]

  -- Removing a stored key from a valid table that has a free slot ends, with no panic, and returns
  -- the slot number that was stored. The table stays valid and keeps every other key with its value,
  -- the key is gone, and each entry that was moved has been reported: every key left stands where
  -- its slot now knows it.
  pub remove_at_lem :
      (t : Table) (key value hole stop : ℕ) (r : R)
      → IsValid t
      → HoldsAt t key value hole
      → stop < capacity t
      → slot t stop ≡ empty
      → ((k w p : ℕ) → HoldsAt t k w p → Pos r k (w - 1) p)
      → Kept r
      → (t' : Table) × (r' : R) × (remove_at update t hole key r ≡ some (some (value - 1), t', r'))
        × Closed update tracks t hole t' r'
        × ((w q : ℕ) → HoldsAt t' key w q → ⊥)
  unfolding remove_at
  remove_at_lem t key value hole stop r valid held stop_in vacant linked kept =
      let cap = capacity t in
      let begin = start-Closing t key value hole stop valid held stop_in vacant in
      let inside : leb cap hole ≡ false = ground (arith, held.inside) in
      let (t', r', result, closed) =
        close_hole-Closed cap t hole (advance cap hole 1) stop r begin
          (λ k w p apart h. linked k w p h) kept
          (probe_distance-lt cap (advance cap hole 1) stop begin.candidate_in stop_in) in
      (
        t',
        r',
        rw (remove_at, inside, held.entry, (==_iff key key).1 refl, result),
        closed,
        λ w q h.
            let (p, apart, old) = closed.none_new key w q h in
            apart (valid.unique p hole key w value old held),
      )
