-- ===== src/Risk/Engine.antt =====
-- `RiskEngine`: its state and operations. Accounts and reservations live in fixed slots; two
-- indexes lead from an id to a slot, and the free reservation slots are linked in a list.
pub mod Amend
pub mod Moves
pub mod Consistent
pub mod Release
pub mod Fills
pub mod Snapshot
pub mod Restored
pub mod Refusal
use deterministic_exchange_r.Prelude.{
  ℕ, zero, suc, ◌+◌, ◌-◌, ◌^◌, List, [], ◌∷◌, Bool, true, false, not, ◌||◌, Option, none, some, ltb,
  leb, ◌==◌, if◌then◌else◌, get_elem?, set, replicate,
}
use deterministic_exchange_r.Prelude.Int.{ℤ, pos, ltb_ℤ}
use deterministic_exchange_r.Prelude.Words.{u32_mod, u64_mod, checked_sub}
use deterministic_exchange_r.Prelude.Outcome
use deterministic_exchange_r.Prelude.Outcome.{Outcome, ok, err, panic, ok_or, unwrap, map_err}
use deterministic_exchange_r.Prelude.Effect.{Effect, ◌>>=◌, ◌>>◌, return, lift, get, put, guard}
use deterministic_exchange_r.Types.{
  OrderId, AccountId, Quantity, NewOrder, RejectReason, kill_switch, invalid_quantity,
  duplicate_order_id, order_capacity, unknown_account, unknown_order, arithmetic_overflow,
  not_order_owner,
}
use deterministic_exchange_r.Risk.Index
use deterministic_exchange_r.Risk.Index.{Table}
use deterministic_exchange_r.Risk.Accounts.{
  RiskLimits, RegistrationError, duplicate_account, account_capacity, invalid_limits, AccountState,
  Reservation, ReservationSlot, free, live,
}
use deterministic_exchange_r.Risk.Limits.{evaluate_limits, exposure_after_fill}

-- `usize::MAX`
abbrev pub nil : ℕ
nil = 2 ^ 64 - 1

pub record RiskEngine : Type 0 where
  pub accounts : List (Option AccountState)
  pub account_index : Table
  pub reservations : List ReservationSlot
  pub reservation_free_head : ℕ
  pub reservation_index : Table
  pub maximum_order_id : Option OrderId
  pub killed : Bool

abbrev pub Operation : Type 0 → Type 0
Operation A = Effect RiskEngine RejectReason A

-- The free list of a new engine, from an index on, over the slots that are left.
abbrev pub free_from : ℕ → ℕ → ℕ → List ReservationSlot
free_from orders i zero = []
free_from orders i (suc n) =
    free (if ltb (i + 1) orders then i + 1 else nil) ∷ free_from orders (i + 1) n

unfoldable pub new : ℕ → ℕ → RiskEngine
new accounts orders = record {
  accounts = replicate accounts none;
  account_index = Index.new accounts;
  reservations = free_from orders 0 orders;
  reservation_free_head = if orders == 0 then nil else 0;
  reservation_index = Index.new orders;
  maximum_order_id = none;
  killed = false;
}

unfoldable pub account_slot : RiskEngine → AccountId → Option ℕ
account_slot e id = Index.lookup e.account_index id

-- `self.accounts[slot].ok_or(UnknownAccount)?`, after `account_slot(id).ok_or(UnknownAccount)?`
unfoldable pub find_account : RiskEngine → AccountId → Outcome RejectReason (ℕ × AccountState)
unfolding account_slot
find_account e id = Outcome.◌>>=◌ (ok_or (account_slot e id) unknown_account) λ i.
    Outcome.◌>>=◌ (unwrap (get_elem? e.accounts i))
      λ entry. Outcome.◌>>=◌ (ok_or entry unknown_account) λ account. ok (i, account)

unfoldable pub live_reservation : RiskEngine → OrderId → Option (ℕ × Reservation)
live_reservation e order_id = elim (Index.lookup e.reservation_index order_id) [
  | none ↦ none
  | some i ↦ elim (get_elem? e.reservations i) [
    | some (live r) ↦ if r.order_id == order_id then some (i, r) else none
    | some (free _) ↦ none
    | none ↦ none
  ]
]

-- The closure of `release_reservation`: an index entry has moved, so its reservation is told where.
unfoldable pub update_moved : ℕ → ℕ → ℕ → List ReservationSlot → List ReservationSlot
update_moved moved_key moved_slot new_flat reservations = elim (get_elem? reservations moved_slot) [
  | some (live moved) ↦
      if moved.order_id == moved_key
      then set reservations moved_slot (live (record moved { index_slot = new_flat }))
      else reservations
  | some (free _) ↦ reservations
  | none ↦ reservations
]

unfoldable pub release_reservation : ℕ → Reservation → Operation (Unit {0})
unfolding update_moved
release_reservation i r e =
    elim (Index.remove_at update_moved e.reservation_index r.index_slot r.order_id e.reservations) [
      | none ↦ (panic, e)
      | some (removed, index, reservations) ↦ (
        ok tt,
        record e {
          reservation_index = index;
          reservations = set reservations i (free e.reservation_free_head);
          reservation_free_head = i;
        },
      )
    ]

-- `iter().position(Option::is_none)`
abbrev pub first_vacant : List (Option AccountState) → Option ℕ
first_vacant [] = none
first_vacant (none ∷ rest) = some 0
first_vacant (some _ ∷ rest) = elim (first_vacant rest) [ none ↦ none | some i ↦ some (i + 1) ]

abbrev pub registration_error : Index.ProbeError → RegistrationError
registration_error Index.ProbeError.full = account_capacity
registration_error Index.ProbeError.duplicate = duplicate_account

abbrev pub fresh_account : AccountId → RiskLimits → AccountState
fresh_account id limits = record {
  id = id;
  limits = limits;
  settled_position = pos 0;
  reserved_buys = 0;
  reserved_sells = 0;
  open_orders = 0;
  killed = false;
}

abbrev pub limits_invalid : RiskLimits → Bool
limits_invalid l =
    l.max_quantity == 0 || l.max_open_orders == 0 || ltb_ℤ l.maximum_price l.minimum_price

abbrev pub is_some {ℓ} : {A : Type ℓ} → Option A → Bool
is_some none = false
is_some (some _) = true

unfoldable pub insert_account : AccountId → ℕ → Effect RiskEngine RegistrationError ℕ
insert_account id i e =
    let (result, index) = Index.insert e.account_index id i in
    (map_err registration_error result, record e { account_index = index })

unfoldable pub register_account :
    AccountId → RiskLimits → Effect RiskEngine RegistrationError (Unit {0})
unfolding insert_account account_slot
register_account id limits = do
  e ← get
  guard (not (limits_invalid limits)) invalid_limits
  guard (not (is_some (account_slot e id))) duplicate_account
  i ← lift (ok_or (first_vacant e.accounts) account_capacity)
  flat ← insert_account id i
  e' ← get
  put (record e' { accounts = set e'.accounts i (some (fresh_account id limits)) })

unfoldable pub set_kill_switch : Bool → RiskEngine → RiskEngine
set_kill_switch killed e = record e { killed = killed }

unfoldable pub set_account_kill_switch : AccountId → Bool → Operation (Unit {0})
unfolding find_account
set_account_kill_switch id killed = do
  e ← get
  (i, account) ← lift (find_account e id)
  put (record e { accounts = set e.accounts i (some (record account { killed = killed })) })

-- `maximum_order_id.is_some_and(|maximum| order.order_id <= maximum)`
abbrev pub at_most : OrderId → Option OrderId → Bool
at_most id none = false
at_most id (some maximum) = leb id maximum

abbrev pub free_link : Option ReservationSlot → Option ℕ
free_link (some (free next)) = some next
free_link (some (live _)) = none
free_link none = none

abbrev pub reservation_error : Index.ProbeError → RejectReason
reservation_error Index.ProbeError.full = order_capacity
reservation_error Index.ProbeError.duplicate = arithmetic_overflow

unfoldable pub insert_reservation : OrderId → ℕ → Operation ℕ
insert_reservation order_id i e =
    let (result, index) = Index.insert e.reservation_index order_id i in
    (map_err reservation_error result, record e { reservation_index = index })

abbrev pub reservation_of : NewOrder → ℕ → Reservation
reservation_of order index_slot = record {
  order_id = order.order_id;
  account_id = order.account_id;
  index_slot = index_slot;
  side = order.side;
  quantity = order.quantity;
}

unfoldable pub check_and_reserve : NewOrder → Operation (Unit {0})
unfolding find_account insert_reservation
check_and_reserve order = do
  e ← get
  guard (not e.killed) kill_switch
  guard (not (order.quantity == 0)) invalid_quantity
  guard (not (at_most order.order_id e.maximum_order_id)) duplicate_order_id
  guard (not (e.reservation_free_head == nil)) order_capacity
  (i, account) ← lift (find_account e order.account_id)
  (reserved_buys, reserved_sells, open_orders) ← lift (evaluate_limits account order)
  let head = e.reservation_free_head
  next_free ← lift (ok_or (free_link (get_elem? e.reservations head)) arithmetic_overflow)
  index_slot ← insert_reservation order.order_id head
  e' ← get
  let charged : AccountState = record account {
    reserved_buys = reserved_buys;
    reserved_sells = reserved_sells;
    open_orders = open_orders;
  }
  put (record e' {
    accounts = set e'.accounts i (some charged);
    reservation_free_head = next_free;
    reservations = set e'.reservations head (live (reservation_of order index_slot));
    maximum_order_id = some order.order_id;
  })

unfoldable pub settle_reservation : ℕ → Reservation → Quantity → Operation (Unit {0})
unfolding find_account release_reservation
settle_reservation i r filled = do
  e ← get
  (slot, account) ← lift (find_account e r.account_id)
  (settled_position, reserved_buys, reserved_sells) ←
      lift (exposure_after_fill account r.side filled r.quantity)
  open_orders ← lift (ok_or (checked_sub account.open_orders 1) arithmetic_overflow)
  let settled : AccountState = record account {
    settled_position = settled_position;
    reserved_buys = reserved_buys;
    reserved_sells = reserved_sells;
    open_orders = open_orders;
  }
  put (record e { accounts = set e.accounts slot (some settled) })
  release_reservation i r

unfoldable pub settle : OrderId → Quantity → Operation (Unit {0})
unfolding settle_reservation live_reservation
settle order_id filled = do
  e ← get
  (i, r) ← lift (ok_or (live_reservation e order_id) unknown_order)
  guard (leb filled r.quantity) invalid_quantity
  settle_reservation i r filled

unfoldable pub record_fill : OrderId → Quantity → Operation (Unit {0})
unfolding find_account live_reservation release_reservation
record_fill order_id filled = do
  guard (not (filled == 0)) invalid_quantity
  e ← get
  (i, r) ← lift (ok_or (live_reservation e order_id) unknown_order)
  left ← lift (ok_or (checked_sub r.quantity filled) invalid_quantity)
  let r' : Reservation = record r { quantity = left }
  (slot, account) ← lift (find_account e r.account_id)
  (settled_position, reserved_buys, reserved_sells) ←
      lift (exposure_after_fill account r.side filled filled)
  open_orders ← lift (
      if left == 0
      then ok_or (checked_sub account.open_orders 1) arithmetic_overflow
      else ok account.open_orders)
  let charged : AccountState = record account {
    settled_position = settled_position;
    reserved_buys = reserved_buys;
    reserved_sells = reserved_sells;
    open_orders = open_orders;
  }
  put (record e { accounts = set e.accounts slot (some charged) })
  if left == 0
      then release_reservation i r'
      else (λ s. (ok tt, record s { reservations = set s.reservations i (live r') }))

unfoldable pub can_cancel : RiskEngine → OrderId → AccountId → Outcome RejectReason (Unit {0})
unfolding live_reservation
can_cancel e order_id account_id = elim (live_reservation e order_id) [
  | none ↦ err unknown_order
  | some (_, r) ↦ if r.account_id == account_id then ok tt else err not_order_owner
]

unfoldable pub cancel_reservation : OrderId → AccountId → Operation Quantity
unfolding live_reservation settle_reservation
cancel_reservation order_id account_id = do
  e ← get
  (i, r) ← lift (ok_or (live_reservation e order_id) unknown_order)
  guard (r.account_id == account_id) not_order_owner
  settle_reservation i r 0
  return r.quantity
