-- ===== src/Risk/Accounts.antt =====
-- The records of the risk engine.
use deterministic_exchange_r.Prelude.{ℕ, Bool}
use deterministic_exchange_r.Prelude.Int.{ℤ}
use deterministic_exchange_r.Types.{OrderId, AccountId, PriceTicks, Quantity, Side}

pub record RiskLimits : Type 0 where
  pub max_quantity : Quantity
  pub max_notional : ℕ
  pub max_abs_position : Quantity
  pub max_open_orders : ℕ
  pub minimum_price : PriceTicks
  pub maximum_price : PriceTicks

pub data RegistrationError : Type 0 where
  duplicate_account account_capacity invalid_limits : RegistrationError

pub record AccountState : Type 0 where
  pub id : AccountId
  pub limits : RiskLimits
  pub settled_position : ℤ
  pub reserved_buys : ℕ
  pub reserved_sells : ℕ
  pub open_orders : ℕ
  pub killed : Bool

pub record Reservation : Type 0 where
  pub order_id : OrderId
  pub account_id : AccountId
  pub index_slot : ℕ
  pub side : Side
  pub quantity : Quantity

pub data ReservationSlot : Type 0 where
  free : ℕ → ReservationSlot
  live : Reservation → ReservationSlot
