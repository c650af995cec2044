-- ===== src/Risk/Tests.antt =====
-- A table with four slots, of which two keys share a home; an account; and its orders.
use deterministic_exchange_r.Prelude.{
  ℕ, zero, suc, get_elem?, ◌+◌, ◌-◌, ◌≤◌, ◌≡◌, ◌≢◌, refl, sym, ap, ◌∙◌, List, [], ◌∷◌, none, some,
  inl, inr, false, ◌==◌, if◌then◌else◌, arith, set,
}
use deterministic_exchange_r.Prelude.Int.{pos, negsuc, ◌+ℤ◌, ◌-ℤ◌}
use deterministic_exchange_r.Prelude.Outcome.{ok}
use deterministic_exchange_r.Types.{NewOrder, buy, sell, gtc}
use deterministic_exchange_r.Risk.Index.{
  empty, occupied, Table, new, lookup, insert, insert_from, remove_at, probe_start, advance,
}
use deterministic_exchange_r.Risk.Index.Find.{HoldsAt, IsValid}
use deterministic_exchange_r.Risk.Index.Insert.{Absent, Landing}
use deterministic_exchange_r.Risk.Index.Update.{HoldsAt-set, insert_lem, lookup-insert}
use deterministic_exchange_r.Risk.Index.Fresh.{new-IsValid, new-Absent}
use deterministic_exchange_r.Risk.Index.Close.{Closed}
use deterministic_exchange_r.Risk.Index.Removal.{remove_at_lem}
use deterministic_exchange_r.Risk.Accounts.{
  RiskLimits, AccountState, Reservation, ReservationSlot, free, live,
}
use deterministic_exchange_r.Risk.Limits.{
  evaluate_limits, exposure_after_fill, check_notional, check_position, add_reserved, sub_reserved,
}
use deterministic_exchange_r.Risk.Exposure.{
  Affordable, WithinPosition, evaluate_limits-Affordable, exposure_after_fill-Within,
}
use deterministic_exchange_r.Risk.Engine.{
  RiskEngine, nil, check_and_reserve, update_moved, live_reservation, release_reservation, settle,
  record_fill, cancel_reservation,
}
use deterministic_exchange_r.Risk.Engine.Snapshot.{
  AccountRiskState, ReservationRiskState, validate_account_state, reserved_totals, add_side,
  check_exposure,
}
use deterministic_exchange_r.Risk.Engine.Restored.{
  total_buys, total_sells, total_orders, validate_account_state-Within,
}
use deterministic_exchange_r.Risk.Engine.Moves.{LiveAt, moved_tracks}
use deterministic_exchange_r.Risk.Engine.Consistent.{Consistent}
use deterministic_exchange_r.Risk.Engine.Release.{release_reservation_lem}
use deterministic_exchange_r.Risk.Engine.Refusal.{check_and_reserve-refused}
use deterministic_exchange_r.Risk.Engine.Fills.{fills-Consistent}

-- the key 1 alone, at its home
abbrev one_key : Table
one_key = empty ∷ occupied 1 1 ∷ empty ∷ empty ∷ []

one_key-inserted : insert (new 2) 1 0 ≡ (ok 1, one_key)
unfolding new insert insert_from probe_start advance
one_key-inserted = refl

insert_lem_example :
    (p : ℕ) × Landing (new 2) 1 p
    × (insert (new 2) 1 0 ≡ (ok p, set (new 2) p (occupied 1 1)))
    × IsValid (set (new 2) p (occupied 1 1))
unfolding new
insert_lem_example =
    insert_lem (new 2) 1 0 3 (new-IsValid 2 (omega arith)) (new-Absent 2 1) (omega arith)
      (omega arith) refl

one_key-IsValid : IsValid one_key
unfolding new
one_key-IsValid =
    let (p, landing, result, valid) =
      insert_lem (new 2) 1 0 3 (new-IsValid 2 (omega arith)) (new-Absent 2 1) (omega arith)
        (omega arith) refl in
    rw (← ap (λ r. r.1) (sym result ∙ one_key-inserted)) valid

one_key-Absent : Absent one_key 5
unfolding new
one_key-Absent p w h = elim (HoldsAt-set (new 2) 1 1 1 (omega arith) 5 w p h) [
  | inl (_, same, _) ↦ omega (arith, same)
  | inr (_, old) ↦ new-Absent 2 5 p w old
]

-- the key 5 after it, one slot past the home that they share
abbrev two_keys : Table
two_keys = empty ∷ occupied 1 1 ∷ occupied 5 2 ∷ empty ∷ []

two_keys-inserted : insert one_key 5 1 ≡ (ok 2, two_keys)
unfolding insert insert_from probe_start advance
two_keys-inserted = refl

lookup-insert_example :
    lookup (insert one_key 5 1).1 1 ≡ (if 1 == 5 then some 1 else lookup one_key 1)
lookup-insert_example =
    lookup-insert one_key 5 1 3 1 one_key-IsValid one_key-Absent (omega arith) (omega arith) refl

two_keys-IsValid : IsValid two_keys
two_keys-IsValid =
    let (p, landing, result, valid) =
      insert_lem one_key 5 1 3 one_key-IsValid one_key-Absent (omega arith) (omega arith) refl in
    rw (← ap (λ r. r.1) (sym result ∙ two_keys-inserted)) valid

abbrev first_order : Reservation
first_order = record { order_id = 1; account_id = 9; index_slot = 1; side = buy; quantity = 6 }

abbrev second_order : Reservation
second_order = record { order_id = 5; account_id = 9; index_slot = 2; side = sell; quantity = 4 }

abbrev slots : List ReservationSlot
slots = live first_order ∷ live second_order ∷ []

abbrev limits : RiskLimits
limits = record {
  max_quantity = 10;
  max_notional = 1000;
  max_abs_position = 20;
  max_open_orders = 3;
  minimum_price = pos 1;
  maximum_price = pos 100;
}

abbrev account : AccountState
account = record {
  id = 9;
  limits = limits;
  settled_position = negsuc 1;
  reserved_buys = 6;
  reserved_sells = 4;
  open_orders = 2;
  killed = false;
}

abbrev engine : RiskEngine
engine = record {
  accounts = some account ∷ none ∷ [];
  account_index = empty ∷ occupied 9 1 ∷ empty ∷ empty ∷ [];
  reservations = slots;
  reservation_free_head = nil;
  reservation_index = two_keys;
  maximum_order_id = some 5;
  killed = false;
}

linked : (k w p : ℕ) → HoldsAt two_keys k w p → LiveAt slots k (w - 1) p
unfolding new
linked k w p h = elim (HoldsAt-set one_key 2 5 2 (omega arith) k w p h) [
  | inl (at, k_eq, w_eq) ↦
      rw (k_eq, w_eq, ← at)
        (record { reservation = second_order; entry = refl; is_of = refl; placed = refl })
  | inr (_, old) ↦ elim (HoldsAt-set (new 2) 1 1 1 (omega arith) k w p old) [
    | inl (at, k_eq, w_eq) ↦
        rw (k_eq, w_eq, ← at)
          (record { reservation = first_order; entry = refl; is_of = refl; placed = refl })
    | inr (_, none_there) ↦ absurd (new-Absent 2 k p w none_there)
  ]
]

indexed :
    (i : ℕ) (r : Reservation)
    → get_elem? slots i ≡ some (live r)
    → HoldsAt two_keys r.order_id (i + 1) r.index_slot
indexed zero r h =
    let one : first_order ≡ r = cc in rw (← one) (record { inside = omega arith; entry = refl })
indexed (suc zero) r h =
    let one : second_order ≡ r = cc in rw (← one) (record { inside = omega arith; entry = refl })
indexed (suc (suc i)) r h = cc

engine-Consistent : Consistent engine
engine-Consistent = record {
  valid = two_keys-IsValid;
  room = (3, omega arith, refl);
  linked = linked;
  indexed = indexed;
}

remove_at_lem_example :
    (t' : Table) × (slots' : List ReservationSlot) × (remove_at update_moved two_keys 1 1 slots
      ≡ some (some 0, t', slots'))
    × Closed update_moved (moved_tracks slots) two_keys 1 t' slots'
    × ((w q : ℕ) → HoldsAt t' 1 w q → ⊥)
remove_at_lem_example =
    remove_at_lem update_moved (moved_tracks slots) two_keys 1 1 1 3 slots two_keys-IsValid
      (record { inside = omega arith; entry = refl }) (omega arith) refl linked (λ j. refl)

release_reservation_lem_example :
    let (result, e') = release_reservation 0 first_order engine in
    (result ≡ ok tt)
    × Consistent e'
    × (live_reservation e' 1 ≡ none)
    × (get_elem? e'.reservations 0 ≡ some (free nil))
    × (e'.reservation_free_head ≡ 0)
    × (e'.accounts ≡ engine.accounts)
    × ((j : ℕ) (s : Reservation)
        → 0 ≢ j
        → get_elem? slots j ≡ some (live s)
        → (q : ℕ) × (live_reservation e' s.order_id ≡ some (j, record s { index_slot = q })))
release_reservation_lem_example =
    release_reservation_lem engine 0 first_order engine-Consistent
      (record { reservation = first_order; entry = refl; is_of = refl; placed = refl })

fills-Consistent_example :
    Consistent (settle 1 2 engine).1
    × Consistent (record_fill 1 2 engine).1
    × Consistent (cancel_reservation 1 9 engine).1
fills-Consistent_example = fills-Consistent engine 1 9 2 engine-Consistent

abbrev order : NewOrder
order = record {
  order_id = 6;
  account_id = 9;
  instrument_id = 1;
  price = pos 50;
  quantity = 8;
  sequence = 3;
  side = buy;
  time_in_force = gtc;
}

evaluate_limits-Affordable_example : Affordable account order (14, 4, 3)
unfolding evaluate_limits check_notional check_position add_reserved ◌+ℤ◌ ◌-ℤ◌
evaluate_limits-Affordable_example =
    evaluate_limits-Affordable account order {totals = (14, 4, 3)} refl

exposure_after_fill-Within_example : WithinPosition 20 (pos 3) 1 4
unfolding exposure_after_fill sub_reserved ◌+ℤ◌
exposure_after_fill-Within_example =
    exposure_after_fill-Within account buy 5 5 {settled = pos 3} {buys = 1} {sells = 4}
      (omega arith) (omega arith, omega arith) refl

-- what is restored of the account and its two orders
abbrev restored : AccountRiskState
restored = record {
  id = 9;
  limits = limits;
  settled_position = negsuc 1;
  reserved_buys = 6;
  reserved_sells = 4;
  open_orders = 2;
  killed = false;
}

abbrev restored_orders : List ReservationRiskState
restored_orders =
    record { order_id = 1; account_id = 9; side = buy; quantity = 6 }
    ∷ record { order_id = 5; account_id = 9; side = sell; quantity = 4 }
    ∷ []

validate_account_state-Within_example :
    (6 ≡ total_buys 9 restored_orders)
    × (4 ≡ total_sells 9 restored_orders)
    × (2 ≡ total_orders 9 restored_orders)
    × (2 ≤ limits.max_open_orders)
    × WithinPosition 20 (negsuc 1) 6 4
unfolding validate_account_state reserved_totals add_side check_exposure ◌+ℤ◌ ◌-ℤ◌
validate_account_state-Within_example = validate_account_state-Within restored restored_orders refl

-- Both slots are taken, so the order finds none.
check_and_reserve-refused_example : (check_and_reserve order engine).1 ≡ engine
unfolding check_and_reserve
check_and_reserve-refused_example = check_and_reserve-refused engine order (λ h. cc)
