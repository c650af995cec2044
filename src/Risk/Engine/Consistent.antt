-- ===== src/Risk/Engine/Consistent.antt =====
-- The reservation index and the reservation slots agree.
use deterministic_exchange_r.Prelude.{
  ℕ, ◌+◌, ◌-◌, ◌<◌, ◌≡◌, refl, sym, ap, ◌∙◌, List, Option, none, some, ==_iff, arith, get_elem?,
}
use deterministic_exchange_r.Risk.Accounts.{Reservation, ReservationSlot, free, live}
use deterministic_exchange_r.Risk.Index
use deterministic_exchange_r.Risk.Index.{Table, empty, occupied, capacity, slot}
use deterministic_exchange_r.Risk.Index.Find
use deterministic_exchange_r.Risk.Index.Find.{HoldsAt, lookup-HoldsAt, lookup-none}
use deterministic_exchange_r.Risk.Engine.{RiskEngine, live_reservation}
use deterministic_exchange_r.Risk.Engine.Moves.{LiveAt, SameBut, unplaced_entry}

-- The index leads from an order to its live reservation, which knows its place in the index; every
-- live reservation is indexed; and the index has a free slot.
pub record Agree (index : Table) (slots : List ReservationSlot) : Type 0 where
  pub valid : Find.IsValid index
  pub room : (p : ℕ) × (p < capacity index) × (slot index p ≡ empty)
  pub linked : (k w p : ℕ) → HoldsAt index k w p → LiveAt slots k (w - 1) p
  pub indexed :
      (i : ℕ) (r : Reservation)
      → get_elem? slots i ≡ some (live r)
      → HoldsAt index r.order_id (i + 1) r.index_slot

abbrev pub Consistent : RiskEngine → Type 0
Consistent e = Agree e.reservation_index e.reservations

-- What `live_reservation` finds is in its slot, and what is live is found.
pub live_reservation-some :
    (e : RiskEngine) (k i : ℕ) {r : Reservation}
    → live_reservation e k ≡ some (i, r)
    → (get_elem? e.reservations i ≡ some (live r)) × (r.order_id ≡ k)
unfolding live_reservation
live_reservation-some e k i h = ground arith

pub live_reservation-found :
    (e : RiskEngine) (i : ℕ) (r : Reservation)
    → Consistent e
    → get_elem? e.reservations i ≡ some (live r)
    → live_reservation e r.order_id ≡ some (i, r)
unfolding live_reservation
live_reservation-found e i r c h =
    let back : i + 1 - 1 ≡ i = omega arith in
    let found : Index.lookup e.reservation_index r.order_id ≡ some i =
      lookup-HoldsAt e.reservation_index r.order_id (i + 1) r.index_slot c.valid (c.indexed i r h)
      ∙ ap some back in
    rw (live_reservation, found, h, (==_iff r.order_id r.order_id).1 refl)

pub live_reservation-none :
    (e : RiskEngine) (k : ℕ)
    → Index.lookup e.reservation_index k ≡ none
    → live_reservation e k ≡ none
unfolding live_reservation
live_reservation-none e k h = rw (live_reservation, h)

-- but for their places in the index, the same
abbrev pub SameOrder : Reservation → Reservation → Type 0
SameOrder r s = record r { index_slot = 0 } ≡ record s { index_slot = 0 }

pub unplaced_live :
    (x : Option ReservationSlot) (r2 : Reservation)
    → unplaced_entry (some (live r2)) ≡ unplaced_entry x
    → (r1 : Reservation) × (x ≡ some (live r1)) × SameOrder r2 r1
unplaced_live none r2 h = cc
unplaced_live (some (free n)) r2 h = cc
unplaced_live (some (live r1)) r2 h = (r1, refl, cc)

pub SameBut-live :
    (before after : List ReservationSlot) (j : ℕ) (r2 : Reservation)
    → SameBut before after
    → get_elem? after j ≡ some (live r2)
    → (r1 : Reservation) × (get_elem? before j ≡ some (live r1)) × SameOrder r2 r1
SameBut-live before after j r2 same h =
    unplaced_live (get_elem? before j) r2 (sym (ap unplaced_entry h) ∙ same j)

pub unplaced_same :
    (r s : Reservation)
    → unplaced_entry (some (live r)) ≡ unplaced_entry (some (live s))
    → SameOrder r s
unplaced_same r s h = cc

abbrev pub placed_at : ℕ → Reservation → Reservation
placed_at q r = record r { index_slot = q }

pub replaced :
    (r s : Reservation) (q : ℕ) → r.index_slot ≡ q → SameOrder r s → r ≡ record s { index_slot = q }
replaced r s q placed like = ap (λ x. placed_at x r) placed ∙ ap (placed_at q) like
