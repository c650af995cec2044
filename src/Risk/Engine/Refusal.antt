-- ===== src/Risk/Engine/Refusal.antt =====
-- A refused order leaves the risk engine as it was.
use deterministic_exchange_r.Prelude.{
  ℕ, zero, suc, ◌+◌, ◌≡◌, ◌≢◌, refl, ap, false, Option-cases, ltb, ◌==◌, Bool-cases, ◌⊎◌, inl, inr,
  get_elem?,
}
use deterministic_exchange_r.Prelude.Outcome.{Outcome, ok, err, panic, outcome-cases}
use deterministic_exchange_r.Types.{NewOrder, RejectReason}
use deterministic_exchange_r.Risk.Index.{
  Table, capacity, slot, probe_start, advance, insert, insert_from,
}
use deterministic_exchange_r.Risk.Index.Find.{slot-cases}
use deterministic_exchange_r.Prelude.Words.{u32_mod, u64_mod, checked_add}
use deterministic_exchange_r.Risk.Limits.{evaluate_limits}
use deterministic_exchange_r.Risk.Engine.{
  RiskEngine, nil, at_most, free_link, find_account, insert_reservation, reservation_error,
  check_and_reserve,
}

-- An insertion writes, or leaves the table alone.
insert_from-cases :
    (t : Table) (key value start rounds offset : ℕ)
    → let r = insert_from t key value start rounds offset in ((p : ℕ) × (r.0 ≡ ok p)) ⊎ (r.1 ≡ t)
unfolding insert_from
insert_from-cases t key value start zero offset = inr refl
insert_from-cases t key value start (suc rounds) offset =
    let rest = insert_from-cases t key value start rounds (offset + 1) in
    let flat = advance (capacity t) start offset in
    elim (slot-cases (slot t flat)) [
      | inl vacant ↦ elim (Bool-cases (ltb flat u32_mod)) [
        | inl small ↦ rw (insert_from, vacant, small) (inl (flat, refl))
        | inr large ↦ rw (insert_from, vacant, large) (inr refl)
      ]
      | inr (k, w, taken) ↦ elim (Bool-cases (k == key)) [
        | inl same ↦ rw (insert_from, taken, same) (inr refl)
        | inr other ↦ rw (insert_from, taken, other) rest
      ]
    ]

insert-cases :
    (t : Table) (key value : ℕ)
    → ((p : ℕ) × ((insert t key value).0 ≡ ok p)) ⊎ ((insert t key value).1 ≡ t)
unfolding insert
insert-cases t key value = elim (Bool-cases (capacity t == 0)) [
  | inl no_room ↦ rw (insert, no_room) (inr refl)
  | inr room ↦ elim (Option-cases (checked_add u64_mod value 1)) [
    | inl none_after ↦ rw (insert, room, none_after) (inr refl)
    | inr (stored, next) ↦
        rw (insert, room, next)
          (insert_from-cases t key stored (probe_start (capacity t) key) (capacity t) 0)
  ]
]

abbrev Settled : Outcome RejectReason (Unit {0}) × RiskEngine → RiskEngine → Type 0
Settled r e = (r.0 ≡ ok tt) ⊎ (r.1 ≡ e)

insert_reservation-cases :
    (e : RiskEngine) (order_id slot : ℕ)
    → ((p : ℕ) × ((insert_reservation order_id slot e).0 ≡ ok p))
      ⊎ (((r : RejectReason) × ((insert_reservation order_id slot e).0 ≡ err r))
          ⊎ ((insert_reservation order_id slot e).0 ≡ panic))
        × ((insert e.reservation_index order_id slot).1 ≡ e.reservation_index)
unfolding insert_reservation
insert_reservation-cases e order_id slot = elim (insert-cases e.reservation_index order_id slot) [
  | inl (p, written) ↦ inl (p, rw (insert_reservation, written))
  | inr same ↦ elim (outcome-cases (insert e.reservation_index order_id slot).0) [
    | inl (p, written) ↦ inl (p, rw (insert_reservation, written))
    | inr (inl (why, refused)) ↦
        inr (inl (reservation_error why, rw (insert_reservation, refused)), same)
    | inr (inr stuck) ↦ inr (inr (rw (insert_reservation, stuck)), same)
  ]
]

abbrev alive_with : RiskEngine → Table → RiskEngine
alive_with e index = record e { reservation_index = index; killed = false }

-- Past the guards: the account, the limits, the free slot and the index.
module _ (e : RiskEngine) (order : NewOrder) (alive : e.killed ≡ false)
    (sized : (order.quantity == 0) ≡ false)
    (new_id : at_most order.order_id e.maximum_order_id ≡ false)
    (room : (e.reservation_free_head == nil) ≡ false) where
  reserve-cases : Settled (check_and_reserve order e) e
  unfolding check_and_reserve
  reserve-cases = elim (outcome-cases (find_account e order.account_id)) [
    | inr (inl (_, h)) ↦ rw (check_and_reserve, alive, sized, new_id, room, h) (inr refl)
    | inr (inr h) ↦ rw (check_and_reserve, alive, sized, new_id, room, h) (inr refl)
    | inl (x, h) ↦ elim (outcome-cases (evaluate_limits x.1 order)) [
      | inr (inl (_, h2)) ↦ rw (check_and_reserve, alive, sized, new_id, room, h, h2) (inr refl)
      | inr (inr h2) ↦ rw (check_and_reserve, alive, sized, new_id, room, h, h2) (inr refl)
      | inl (totals, h2) ↦
          elim (Option-cases (free_link (get_elem? e.reservations e.reservation_free_head))) [
            | inl h3 ↦ rw (check_and_reserve, alive, sized, new_id, room, h, h2, h3) (inr refl)
            | inr (next, h3) ↦
                elim (insert_reservation-cases e order.order_id e.reservation_free_head) [
                  | inl (p, h4) ↦
                      rw (check_and_reserve, alive, sized, new_id, room, h, h2, h3, h4) (inl refl)
                  | inr (inl (_, h4), same) ↦
                      rw (check_and_reserve, alive, sized, new_id, room, h, h2, h3, h4)
                        (inr (ap (alive_with e) same))
                  | inr (inr h4, same) ↦
                      rw (check_and_reserve, alive, sized, new_id, room, h, h2, h3, h4)
                        (inr (ap (alive_with e) same))
                ]
          ]
    ]
  ]

check_and_reserve-cases :
    (e : RiskEngine) (order : NewOrder) → Settled (check_and_reserve order e) e
unfolding check_and_reserve
check_and_reserve-cases e order = elim (Bool-cases e.killed) [
  | inl killed ↦ rw (check_and_reserve, killed) (inr refl)
  | inr alive ↦ elim (Bool-cases (order.quantity == 0)) [
    | inl zero_size ↦ rw (check_and_reserve, alive, zero_size) (inr refl)
    | inr sized ↦ elim (Bool-cases (at_most order.order_id e.maximum_order_id)) [
      | inl old ↦ rw (check_and_reserve, alive, sized, old) (inr refl)
      | inr new_id ↦ elim (Bool-cases (e.reservation_free_head == nil)) [
        | inl full ↦ rw (check_and_reserve, alive, sized, new_id, full) (inr refl)
        | inr room ↦ reserve-cases e order alive sized new_id room
      ]
    ]
  ]
]

-- An order that `check_and_reserve` does not accept, whatever the reason, leaves the engine as it was.
pub check_and_reserve-refused :
    (e : RiskEngine) (order : NewOrder)
    → (check_and_reserve order e).0 ≢ ok tt
    → (check_and_reserve order e).1 ≡ e
check_and_reserve-refused e order refused = elim (check_and_reserve-cases e order) [
  | inl accepted ↦ absurd (refused accepted)
  | inr same ↦ same
]
