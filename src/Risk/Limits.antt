-- ===== src/Risk/Limits.antt =====
-- The checks of one order against one account: `evaluate_limits` and `exposure_after_fill`.
use deterministic_exchange_r.Prelude.{ℕ, ◌||◌, not, leb}
use deterministic_exchange_r.Prelude.Int.{ℤ, pos, ltb_ℤ, ◌-ℤ◌}
use deterministic_exchange_r.Prelude.Words.{
  u32_mod, u128_mod, checked_add, checked_sub, checked_mul, checked_add_i128, checked_sub_i128,
  i128_of_unsigned, checked_abs_i64,
}
use deterministic_exchange_r.Prelude.Outcome.{Outcome, ok, ◌>>=◌, ◌>>◌, guard, ok_or}
use deterministic_exchange_r.Types.{
  Side, buy, sell, NewOrder, PriceTicks, Quantity, RejectReason, kill_switch, quantity_limit,
  price_collar, arithmetic_overflow, notional_limit, position_limit, open_order_limit,
}
use deterministic_exchange_r.Risk.Accounts.{AccountState}

-- The reserved totals of an account: buys, then sells.
abbrev pub Reserved : Type 0
Reserved = ℕ × ℕ

unfoldable pub add_reserved : AccountState → Side → ℕ → Outcome RejectReason Reserved
add_reserved account buy quantity = do
  buys ← ok_or (checked_add u128_mod account.reserved_buys quantity) arithmetic_overflow
  ok (buys, account.reserved_sells)
add_reserved account sell quantity = do
  sells ← ok_or (checked_add u128_mod account.reserved_sells quantity) arithmetic_overflow
  ok (account.reserved_buys, sells)

unfoldable pub sub_reserved : AccountState → Side → ℕ → Outcome RejectReason Reserved
sub_reserved account buy quantity = do
  buys ← ok_or (checked_sub account.reserved_buys quantity) arithmetic_overflow
  ok (buys, account.reserved_sells)
sub_reserved account sell quantity = do
  sells ← ok_or (checked_sub account.reserved_sells quantity) arithmetic_overflow
  ok (account.reserved_buys, sells)

unfoldable pub check_notional :
    AccountState → PriceTicks → Quantity → Outcome RejectReason (Unit {0})
check_notional account price quantity = do
  absolute_price ← ok_or (checked_abs_i64 price) arithmetic_overflow
  notional ← ok_or (checked_mul u128_mod absolute_price quantity) arithmetic_overflow
  guard (leb notional account.limits.max_notional) notional_limit

-- The worst case on either side: all reserved buys filled, and all reserved sells filled.
unfoldable pub check_position : AccountState → Reserved → Outcome RejectReason (Unit {0})
check_position account reserved = do
  let maximum = account.limits.max_abs_position
  buys ← ok_or (i128_of_unsigned reserved.0) arithmetic_overflow
  worst_long ← ok_or (checked_add_i128 account.settled_position buys) arithmetic_overflow
  sells ← ok_or (i128_of_unsigned reserved.1) arithmetic_overflow
  worst_short ← ok_or (checked_sub_i128 account.settled_position sells) arithmetic_overflow
  guard (not (ltb_ℤ (pos maximum) worst_long || ltb_ℤ worst_short (pos 0 -ℤ pos maximum)))
      position_limit

unfoldable pub evaluate_limits : AccountState → NewOrder → Outcome RejectReason (ℕ × ℕ × ℕ)
evaluate_limits account order = do
  guard (not account.killed) kill_switch
  guard (leb order.quantity account.limits.max_quantity) quantity_limit
  guard
      (not (
        ltb_ℤ order.price account.limits.minimum_price
        || ltb_ℤ account.limits.maximum_price order.price))
      price_collar
  check_notional account order.price order.quantity
  reserved ← add_reserved account order.side order.quantity
  check_position account reserved
  open_orders ← ok_or (checked_add u32_mod account.open_orders 1) arithmetic_overflow
  guard (leb open_orders account.limits.max_open_orders) open_order_limit
  ok (reserved.0, reserved.1, open_orders)

abbrev pub settled_after : AccountState → Side → ℕ → Outcome RejectReason ℤ
settled_after account buy filled =
    ok_or (checked_add_i128 account.settled_position (pos filled)) arithmetic_overflow
settled_after account sell filled =
    ok_or (checked_sub_i128 account.settled_position (pos filled)) arithmetic_overflow

unfoldable pub exposure_after_fill : AccountState → Side → ℕ → ℕ → Outcome RejectReason (ℤ × ℕ × ℕ)
exposure_after_fill account side filled released = do
  settled_position ← settled_after account side filled
  reserved ← sub_reserved account side released
  ok (settled_position, reserved.0, reserved.1)
