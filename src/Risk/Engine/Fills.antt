-- ===== src/Risk/Engine/Fills.antt =====
-- `settle`, `record_fill` and `cancel_reservation` on a consistent engine.
use deterministic_exchange_r.Prelude.{
  ℕ, ◌-◌, ◌≡◌, refl, sym, ap, ◌∙◌, List, Option, some, ◌==◌, if◌then◌else◌, set, get_elem?,
  get_elem?-set_self, get_elem?-set_ne, get_elem?-some_lt, inl, inr, leb, Bool-cases, Option-cases,
}
use native.Mathlib.Decide.{ℕ_discrete}
use deterministic_exchange_r.Prelude.Outcome.{Outcome, ok, err, panic, ok_or, outcome-cases}
use deterministic_exchange_r.Prelude.Effect.{resume, return}
use deterministic_exchange_r.Prelude.Words.{checked_sub}
use deterministic_exchange_r.Types.{
  OrderId, AccountId, Quantity, arithmetic_overflow, invalid_quantity,
}
use deterministic_exchange_r.Risk.Accounts.{AccountState, Reservation, ReservationSlot, live}
use deterministic_exchange_r.Risk.Index.{Table}
use deterministic_exchange_r.Risk.Limits.{exposure_after_fill}
use deterministic_exchange_r.Risk.Engine.{
  RiskEngine, live_reservation, release_reservation, settle_reservation, settle, record_fill,
  cancel_reservation, find_account,
}
use deterministic_exchange_r.Risk.Engine.Moves.{LiveAt}
use deterministic_exchange_r.Risk.Engine.Consistent.{Agree, Consistent, live_reservation-some}
use deterministic_exchange_r.Risk.Engine.Release.{release_reservation_lem}

settle_reservation-Consistent :
    (e : RiskEngine) (i : ℕ) (r : Reservation) (filled : Quantity)
    → Consistent e
    → LiveAt e.reservations r.order_id i r.index_slot
    → Consistent (settle_reservation i r filled e).1
unfolding settle_reservation
settle_reservation-Consistent e i r filled c at_i =
    elim (outcome-cases (find_account e r.account_id)) [
      | inl (x, found) ↦ elim (outcome-cases (exposure_after_fill x.1 r.side filled r.quantity)) [
        | inl (exposure, h) ↦
            elim (outcome-cases (ok_or (checked_sub x.1.open_orders 1) arithmetic_overflow)) [
              | inl (open_orders, h2) ↦
                  rw (settle_reservation, found, h, h2) (release_reservation_lem _ i r c at_i).1
              | inr (inl (_, h2)) ↦ rw (settle_reservation, found, h, h2) c
              | inr (inr h2) ↦ rw (settle_reservation, found, h, h2) c
            ]
        | inr (inl (_, h)) ↦ rw (settle_reservation, found, h) c
        | inr (inr h) ↦ rw (settle_reservation, found, h) c
      ]
      | inr (inl (_, found)) ↦ rw (settle_reservation, found) c
      | inr (inr found) ↦ rw (settle_reservation, found) c
    ]

found-LiveAt :
    (e : RiskEngine) (k i : ℕ) {r : Reservation}
    → live_reservation e k ≡ some (i, r)
    → LiveAt e.reservations r.order_id i r.index_slot
found-LiveAt e k i {r} h = record {
  reservation = r;
  entry = (live_reservation-some e k i h).0;
  is_of = refl;
  placed = refl;
}

settle-Consistent :
    (e : RiskEngine) (order_id : OrderId) (filled : Quantity)
    → Consistent e
    → Consistent (settle order_id filled e).1
unfolding settle
settle-Consistent e order_id filled c = elim (Option-cases (live_reservation e order_id)) [
  | inl missed ↦ rw (settle, missed) c
  | inr (found, is_live) ↦
      let settled =
        settle_reservation-Consistent e found.0 found.1 filled c
          (found-LiveAt e order_id found.0 is_live) in
      elim (Bool-cases (leb filled found.1.quantity)) [
        | inl fits ↦ rw (settle, is_live, fits) settled
        | inr large ↦ rw (settle, is_live, large) c
      ]
]

after-return :
    {S E A B : Type 0} (o : Outcome E A) (b : B) (s : S) → (resume o (λ _. return b) s).1 ≡ s
after-return (ok a) b s = refl
after-return (err e) b s = refl
after-return panic b s = refl

cancel-Consistent :
    (e : RiskEngine) (order_id : OrderId) (account_id : AccountId)
    → Consistent e
    → Consistent (cancel_reservation order_id account_id e).1
unfolding cancel_reservation
cancel-Consistent e order_id account_id c = elim (Option-cases (live_reservation e order_id)) [
  | inl missed ↦ rw (cancel_reservation, missed) c
  | inr (found, is_live) ↦
      let settled =
        settle_reservation-Consistent e found.0 found.1 0 c
          (found-LiveAt e order_id found.0 is_live) in
      let call = settle_reservation found.0 found.1 0 e in
      elim (Bool-cases (found.1.account_id == account_id)) [
        | inl owned ↦
            rw (cancel_reservation, is_live, owned)
              (rw (after-return call.0 found.1.quantity call.1) settled)
        | inr foreign ↦ rw (cancel_reservation, is_live, foreign) c
      ]
]

-- A live reservation may change in all but its order and its place.
set_live-Agree :
    (index : Table) (slots : List ReservationSlot) (i : ℕ) (r r' : Reservation)
    → Agree index slots
    → get_elem? slots i ≡ some (live r)
    → r'.order_id ≡ r.order_id
    → r'.index_slot ≡ r.index_slot
    → Agree index (set slots i (live r'))
set_live-Agree index slots i r r' a h same_id same_place = record {
  valid = a.valid;
  room = a.room;
  linked = λ k w p held. elim (ℕ_discrete i (w - 1)) [
    | yes at ↦
        let old = a.linked k w p held in
        let clash : some (live r) ≡ some (live old.reservation) =
          sym h ∙ ap (get_elem? slots) at ∙ old.entry in
        let one : r ≡ old.reservation = cc in
        record {
          reservation = r';
          entry =
              ap (get_elem? (set slots i (live r'))) (sym at)
              ∙ get_elem?-set_self slots i (live r') (get_elem?-some_lt slots i h);
          is_of = same_id ∙ ap (λ x. x.order_id) one ∙ old.is_of;
          placed = same_place ∙ ap (λ x. x.index_slot) one ∙ old.placed;
        }
    | no apart ↦
        let old = a.linked k w p held in
        record {
          reservation = old.reservation;
          entry = get_elem?-set_ne slots (live r') apart ∙ old.entry;
          is_of = old.is_of;
          placed = old.placed;
        }
  ];
  indexed = λ j s found. elim (ℕ_discrete i j) [
    | yes at ↦
        let clash : some (live r') ≡ some (live s) =
          sym (get_elem?-set_self slots i (live r') (get_elem?-some_lt slots i h))
          ∙ ap (get_elem? (set slots i (live r'))) at
          ∙ found in
        let one : r' ≡ s = cc in
        let id : s.order_id ≡ r.order_id = sym (ap (λ x. x.order_id) one) ∙ same_id in
        let place : s.index_slot ≡ r.index_slot = sym (ap (λ x. x.index_slot) one) ∙ same_place in
        rw (id, place, ← at) (a.indexed i r h)
    | no apart ↦ a.indexed j s (sym (get_elem?-set_ne slots (live r') apart) ∙ found)
  ];
}

-- The end of `record_fill`, past the checks that leave the engine alone.
filled-Consistent :
    (e : RiskEngine) (i left : ℕ) (r : Reservation) (accounts : List (Option AccountState))
    → Consistent e
    → LiveAt e.reservations r.order_id i r.index_slot
    → Consistent
        ((if left == 0 then release_reservation i (record r { quantity = left }) else (λ s. (
          ok tt,
          record s { reservations = set s.reservations i (live (record r { quantity = left })) },
        )))
          (record e { accounts = accounts })).1
filled-Consistent e i left r accounts c at_i = elim (Bool-cases (left == 0)) [
  | inl done ↦
      rw done
        (release_reservation_lem (record e { accounts = accounts }) i (record r { quantity = left })
          c at_i).1
  | inr more ↦ rw more (
      set_live-Agree e.reservation_index e.reservations i at_i.reservation
        (record r { quantity = left }) c at_i.entry (sym at_i.is_of) (sym at_i.placed))
]

record_fill-Consistent :
    (e : RiskEngine) (order_id : OrderId) (filled : Quantity)
    → Consistent e
    → Consistent (record_fill order_id filled e).1
unfolding record_fill
record_fill-Consistent e order_id filled c = elim (Bool-cases (filled == 0)) [
  | inl nothing ↦ rw (record_fill, nothing) c
  | inr some_fill ↦ elim (Option-cases (live_reservation e order_id)) [
    | inl missed ↦ rw (record_fill, some_fill, missed) c
    | inr (found, is_live) ↦
        let r = found.1 in
        elim (outcome-cases (ok_or (checked_sub r.quantity filled) invalid_quantity)) [
          | inr (inl (_, less)) ↦ rw (record_fill, some_fill, is_live, less) c
          | inr (inr less) ↦ rw (record_fill, some_fill, is_live, less) c
          | inl (left, less) ↦ elim (outcome-cases (find_account e r.account_id)) [
            | inr (inl (_, known)) ↦ rw (record_fill, some_fill, is_live, less, known) c
            | inr (inr known) ↦ rw (record_fill, some_fill, is_live, less, known) c
            | inl (x, known) ↦ elim (outcome-cases (exposure_after_fill x.1 r.side filled filled)) [
              | inr (inl (_, h)) ↦ rw (record_fill, some_fill, is_live, less, known, h) c
              | inr (inr h) ↦ rw (record_fill, some_fill, is_live, less, known, h) c
              | inl (exposure, h) ↦
                  elim (outcome-cases (
                    if left == 0
                    then ok_or (checked_sub x.1.open_orders 1) arithmetic_overflow
                    else ok x.1.open_orders)) [
                      | inr (inl (_, h2)) ↦
                          rw (record_fill, some_fill, is_live, less, known, h, h2) c
                      | inr (inr h2) ↦ rw (record_fill, some_fill, is_live, less, known, h, h2) c
                      | inl (open_orders, h2) ↦
                          rw (record_fill, some_fill, is_live, less, known, h, h2)
                            (filled-Consistent e found.0 left r _ c
                              (found-LiveAt e order_id found.0 is_live))
                    ]
            ]
          ]
        ]
  ]
]

-- `settle`, `record_fill` and `cancel_reservation` leave a consistent engine consistent, whether they
-- succeed or refuse.
pub fills-Consistent :
    (e : RiskEngine) (order_id : OrderId) (account_id : AccountId) (filled : Quantity)
    → Consistent e
    → Consistent (settle order_id filled e).1
      × Consistent (record_fill order_id filled e).1
      × Consistent (cancel_reservation order_id account_id e).1
fills-Consistent e order_id account_id filled c = (
  settle-Consistent e order_id filled c,
  record_fill-Consistent e order_id filled c,
  cancel-Consistent e order_id account_id c,
)
