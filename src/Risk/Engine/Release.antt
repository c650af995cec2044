-- ===== src/Risk/Engine/Release.antt =====
-- What `release_reservation` makes of a consistent engine.
use deterministic_exchange_r.Prelude.{
  ℕ, ◌+◌, ◌-◌, ◌<◌, ◌≡◌, ◌≢◌, refl, sym, ap, ◌∙◌, List, none, some, arith, length, set, get_elem?,
  get_elem?-set_self, get_elem?-set_ne, get_elem?-some_lt,
}
use native.Mathlib.Decide.{ℕ_discrete}
use deterministic_exchange_r.Prelude.Outcome.{ok}
use deterministic_exchange_r.Risk.Accounts.{Reservation, ReservationSlot, free, live}
use deterministic_exchange_r.Risk.Index.{Table, occupied, slot}
use deterministic_exchange_r.Risk.Index.Find.{HoldsAt, lookup-none}
use deterministic_exchange_r.Risk.Index.Close.{Closed}
use deterministic_exchange_r.Risk.Index.Removal.{remove_at_lem}
use deterministic_exchange_r.Risk.Engine.{
  RiskEngine, live_reservation, release_reservation, update_moved,
}
use deterministic_exchange_r.Risk.Engine.Moves.{LiveAt, unplaced_entry, moved_tracks}
use deterministic_exchange_r.Risk.Engine.Consistent.{
  Agree, Consistent, live_reservation-found, live_reservation-none, SameBut-live, unplaced_live,
  unplaced_same, replaced,
}

-- An index without the order, and the slots it left, with the order's slot freed.
module _ (e : RiskEngine) (i key hole next : ℕ) (c : Consistent e)
    (at_i : LiveAt e.reservations key i hole) (index : Table) (slots : List ReservationSlot)
    (closed : Closed update_moved
      (moved_tracks e.reservations)
      e.reservation_index
      hole
      index
      slots)
    (gone : (w q : ℕ) → HoldsAt index key w q → ⊥) where
  abbrev freed : List ReservationSlot
  freed = set slots i (free next)

  freed-linked : (k w q : ℕ) → HoldsAt index k w q → LiveAt freed k (w - 1) q
  freed-linked k w q h =
      let at_w = closed.linked k w q h in
      let (p, _, old) = closed.none_new k w q h in
      let before = c.linked k w p old in
      let apart : i ≢ w - 1 = λ same.
        let clash : some (live at_i.reservation) ≡ some (live before.reservation) =
          sym at_i.entry ∙ ap (get_elem? e.reservations) same ∙ before.entry in
        let one : at_i.reservation ≡ before.reservation = cc in
        let keys : k ≡ key = sym before.is_of ∙ sym (ap (λ r. r.order_id) one) ∙ at_i.is_of in
        gone w q (rw (← keys) h) in
      record {
        reservation = at_w.reservation;
        entry = get_elem?-set_ne slots (free next) apart ∙ at_w.entry;
        is_of = at_w.is_of;
        placed = at_w.placed;
      }

  i_in : i < length slots
  i_in =
      let (r, now, _) =
        unplaced_live (get_elem? slots i) at_i.reservation
          (sym (closed.rest i ∙ ap unplaced_entry at_i.entry)) in
      get_elem?-some_lt slots i now

  distinct_place :
      (j : ℕ) (r : Reservation)
      → i ≢ j
      → HoldsAt e.reservation_index r.order_id (j + 1) r.index_slot
      → r.index_slot ≢ hole
  distinct_place j r apart held same =
      let own = c.indexed i at_i.reservation at_i.entry in
      let here : r.index_slot ≡ at_i.reservation.index_slot = same ∙ sym at_i.placed in
      let clash : occupied r.order_id (j + 1) ≡ occupied at_i.reservation.order_id (i + 1) =
        sym held.entry ∙ ap (slot e.reservation_index) here ∙ own.entry in
      let values : j + 1 ≡ i + 1 = cc in apart (omega (arith, values))

  freed-indexed :
      (j : ℕ) (r : Reservation)
      → get_elem? freed j ≡ some (live r)
      → HoldsAt index r.order_id (j + 1) r.index_slot
  freed-indexed j r h = elim (ℕ_discrete i j) [
    | yes same ↦
        let clash : some (free next) ≡ some (live r) =
          sym (get_elem?-set_self slots i (free next) i_in) ∙ ap (get_elem? freed) same ∙ h in
        cc
    | no apart ↦
        let now : get_elem? slots j ≡ some (live r) =
          sym (get_elem?-set_ne slots (free next) apart) ∙ h in
        let (r1, was, like) = SameBut-live e.reservations slots j r closed.rest now in
        let id : r.order_id ≡ r1.order_id = ap (λ x. x.order_id) like in
        let held = c.indexed j r1 was in
        let (q, kept) =
          closed.kept r1.order_id (j + 1) r1.index_slot (distinct_place j r1 apart held) held in
        let known = closed.linked r1.order_id (j + 1) q kept in
        let back : j + 1 - 1 ≡ j = omega arith in
        let one : some (live known.reservation) ≡ some (live r) =
          sym known.entry ∙ ap (get_elem? slots) back ∙ now in
        let place : r.index_slot ≡ q =
          let same : known.reservation ≡ r = cc in
          sym (ap (λ x. x.index_slot) same) ∙ known.placed in
        rw (id, place) kept
  ]

  freed-Agree : Agree index freed
  freed-Agree = record {
    valid = closed.valid;
    room = closed.room;
    linked = freed-linked;
    indexed = freed-indexed;
  }

  -- Every other live reservation is where it was, with a new place in the index at most.
  freed-other :
      (j : ℕ) (s : Reservation)
      → i ≢ j
      → get_elem? e.reservations j ≡ some (live s)
      → (q : ℕ) × (get_elem? freed j ≡ some (live (record s { index_slot = q })))
  freed-other j s apart h =
      let held = c.indexed j s h in
      let (q, kept) =
        closed.kept s.order_id (j + 1) s.index_slot (distinct_place j s apart held) held in
      let known = closed.linked s.order_id (j + 1) q kept in
      let back : j + 1 - 1 ≡ j = omega arith in
      let now : get_elem? slots j ≡ some (live known.reservation) =
        ap (get_elem? slots) (sym back) ∙ known.entry in
      (
        q,
        get_elem?-set_ne slots (free next) apart
            ∙ now
            ∙ ap (λ x. some (live x))
                (replaced known.reservation s q known.placed (
                  unplaced_same known.reservation s
                    (sym (ap unplaced_entry now) ∙ closed.rest j ∙ ap unplaced_entry h))),
      )

-- Releasing a live reservation of a consistent engine succeeds and leaves the engine consistent: the
-- order is no longer found, its slot heads the free list, the accounts are untouched, and every
-- other live reservation is still found, with a new place in the index at most.
pub release_reservation_lem :
    (e : RiskEngine) (i : ℕ) (r : Reservation)
    → Consistent e
    → LiveAt e.reservations r.order_id i r.index_slot
    → let (result, e') = release_reservation i r e in
      (result ≡ ok tt)
      × Consistent e'
      × (live_reservation e' r.order_id ≡ none)
      × (get_elem? e'.reservations i ≡ some (free e.reservation_free_head))
      × (e'.reservation_free_head ≡ i)
      × (e'.accounts ≡ e.accounts)
      × ((j : ℕ) (s : Reservation)
          → i ≢ j
          → get_elem? e.reservations j ≡ some (live s)
          → (q : ℕ) × (live_reservation e' s.order_id ≡ some (j, record s { index_slot = q })))
unfolding release_reservation
release_reservation_lem e i r c at_i =
    let own = c.indexed i at_i.reservation at_i.entry in
    let held : HoldsAt e.reservation_index r.order_id (i + 1) r.index_slot =
      rw (← at_i.is_of, ← at_i.placed) own in
    let (stop, stop_in, vacant) = c.room in
    let (index, slots, result, closed, gone) =
      remove_at_lem update_moved (moved_tracks e.reservations) e.reservation_index r.order_id
        (i + 1) r.index_slot stop e.reservations c.valid held stop_in vacant c.linked (λ j. refl) in
    let after : RiskEngine = record e {
      reservation_index = index;
      reservations = set slots i (free e.reservation_free_head);
      reservation_free_head = i;
    } in
    let agree =
      freed-Agree e i r.order_id r.index_slot e.reservation_free_head c at_i index slots closed
        gone in
    let in_slots =
      i_in e i r.order_id r.index_slot e.reservation_free_head c at_i index slots closed gone in
    rw (release_reservation, result)
      (
        refl,
        agree,
        live_reservation-none after r.order_id
            (lookup-none index r.order_id closed.valid (λ p w h. gone w p h)),
        get_elem?-set_self slots i (free e.reservation_free_head) in_slots,
        refl,
        refl,
        λ j s apart h.
            let (q, there) =
              freed-other e i r.order_id r.index_slot e.reservation_free_head c at_i index slots
                closed gone j s apart h in
            (q, live_reservation-found after j (record s { index_slot = q }) agree there),
      )
