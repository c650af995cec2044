-- ===== src/Risk/Engine/Amend.antt =====
-- `adjust_reservation` and `restore_reservation`: the two halves of an amend.
use deterministic_exchange_r.Prelude.{ℕ, ◌-◌, some, ltb, ◌==◌, if◌then◌else◌, set}
use deterministic_exchange_r.Prelude.Outcome.{ok_or}
use deterministic_exchange_r.Prelude.Effect.{◌>>=◌, ◌>>◌, return, lift, get, put, guard}
use deterministic_exchange_r.Types.{
  OrderId, AccountId, PriceTicks, Quantity, unknown_order, not_order_owner,
}
use deterministic_exchange_r.Risk.Accounts.{AccountState, Reservation, live}
use deterministic_exchange_r.Risk.Limits.{
  Reserved, add_reserved, sub_reserved, check_notional, check_position,
}
use deterministic_exchange_r.Risk.Engine.{Operation, find_account, live_reservation}

-- the writes that end both operations
abbrev pub write_back :
    ℕ → AccountState → Reserved → ℕ → Reservation → Quantity → Operation (Unit {0})
write_back slot account reserved i r quantity e =
    let charged : AccountState = record account {
      reserved_buys = reserved.0;
      reserved_sells = reserved.1;
    } in
    put
      (record e {
        accounts = set e.accounts slot (some charged);
        reservations = set e.reservations i (live (record r { quantity = quantity }));
      })
      e

-- The branch of `adjust_reservation` that grows the order.
unfoldable pub grow :
    ℕ → AccountState → ℕ → Reservation → PriceTicks → Quantity → Operation (Quantity × Quantity)
unfolding add_reserved check_notional check_position
grow slot account i r price new_quantity = do
  reserved ← lift (add_reserved account r.side (new_quantity - r.quantity))
  lift (check_notional account price new_quantity)
  lift (check_position account reserved)
  write_back slot account reserved i r new_quantity
  return (0, r.quantity)

-- The branch that shrinks it.
unfoldable pub shrink :
    ℕ → AccountState → ℕ → Reservation → Quantity → Operation (Quantity × Quantity)
unfolding sub_reserved
shrink slot account i r new_quantity = do
  let released = r.quantity - new_quantity
  reserved ← lift (sub_reserved account r.side released)
  write_back slot account reserved i r new_quantity
  return (released, r.quantity)

-- Returns what was released and the quantity before.
unfoldable pub adjust_reservation :
    OrderId → AccountId → PriceTicks → Quantity → Operation (Quantity × Quantity)
unfolding live_reservation find_account grow shrink
adjust_reservation order_id account_id price new_quantity = do
  e ← get
  (i, r) ← lift (ok_or (live_reservation e order_id) unknown_order)
  guard (r.account_id == account_id) not_order_owner
  if new_quantity == r.quantity then return (0, r.quantity) else (do
    (slot, account) ← lift (find_account e account_id)
    if ltb r.quantity new_quantity
        then grow slot account i r price new_quantity
        else shrink slot account i r new_quantity)

unfoldable pub restore_reservation : OrderId → AccountId → Quantity → Operation (Unit {0})
unfolding live_reservation find_account add_reserved sub_reserved
restore_reservation order_id account_id prior = do
  e ← get
  (i, r) ← lift (ok_or (live_reservation e order_id) unknown_order)
  guard (r.account_id == account_id) not_order_owner
  if r.quantity == prior then return tt else (do
    (slot, account) ← lift (find_account e account_id)
    reserved ← lift (
        if ltb r.quantity prior
        then add_reserved account r.side (prior - r.quantity)
        else sub_reserved account r.side (r.quantity - prior))
    write_back slot account reserved i r prior)
