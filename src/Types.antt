-- ===== src/Types.antt =====
-- crates/hft-types: the identifiers, commands, reports and reasons that the crates share.
pub mod Reports
mod Tests
use deterministic_exchange_r.Prelude.{ℕ, Bool, true, false, Option}
use deterministic_exchange_r.Prelude.Int.{ℤ}

-- The `id_type!` wrappers. An unsigned one is the number that it wraps; `PriceTicks` wraps an i64.
abbrev pub OrderId : Type 0
OrderId = ℕ

abbrev pub AccountId : Type 0
AccountId = ℕ

abbrev pub InstrumentId : Type 0
InstrumentId = ℕ

abbrev pub PriceTicks : Type 0
PriceTicks = ℤ

abbrev pub Quantity : Type 0
Quantity = ℕ

abbrev pub SequenceNumber : Type 0
SequenceNumber = ℕ

pub data Side : Type 0 where
  buy sell : Side

pub data TimeInForce : Type 0 where
  gtc ioc fok post_only : TimeInForce

-- `side as u8` and `time_in_force as u8`
abbrev pub side_code : Side → ℕ
side_code buy = 1
side_code sell = 2

abbrev pub tif_code : TimeInForce → ℕ
tif_code gtc = 1
tif_code ioc = 2
tif_code fok = 3
tif_code post_only = 4

abbrev pub same_side : Side → Side → Bool
same_side buy buy = true
same_side sell sell = true
same_side _ _ = false

pub record NewOrder : Type 0 where
  pub order_id : OrderId
  pub account_id : AccountId
  pub instrument_id : InstrumentId
  pub price : PriceTicks
  pub quantity : Quantity
  pub sequence : SequenceNumber
  pub side : Side
  pub time_in_force : TimeInForce

pub record ReplaceOrder : Type 0 where
  pub order_id : OrderId
  pub account_id : AccountId
  pub instrument_id : InstrumentId
  pub sequence : SequenceNumber
  pub price : PriceTicks
  pub quantity : Quantity

pub record CancelOrder : Type 0 where
  pub order_id : OrderId
  pub account_id : AccountId
  pub instrument_id : InstrumentId
  pub sequence : SequenceNumber

pub data Command : Type 0 where
  new_order : NewOrder → Command
  cancel_order : CancelOrder → Command
  replace_order : ReplaceOrder → Command

-- `Command::instrument_id` and `Command::sequence`
unfoldable pub command_instrument_id : Command → InstrumentId
command_instrument_id (new_order order) = order.instrument_id
command_instrument_id (cancel_order cancel) = cancel.instrument_id
command_instrument_id (replace_order replace) = replace.instrument_id

unfoldable pub command_sequence : Command → SequenceNumber
command_sequence (new_order order) = order.sequence
command_sequence (cancel_order cancel) = cancel.sequence
command_sequence (replace_order replace) = replace.sequence

pub data RejectReason : Type 0 where
  invalid_instrument invalid_price invalid_quantity quantity_limit : RejectReason
  notional_limit position_limit open_order_limit price_collar : RejectReason
  duplicate_order_id unknown_order not_order_owner kill_switch : RejectReason
  unknown_account arithmetic_overflow order_capacity price_level_capacity : RejectReason
  price_level_order_capacity report_capacity insufficient_liquidity : RejectReason
  post_only_would_trade replace_would_cross : RejectReason

pub data OrderState : Type 0 where
  accepted partially_filled filled : OrderState
  rejected : RejectReason → OrderState

pub record ExecutionReport : Type 0 where
  pub maker_order_id : OrderId
  pub taker_order_id : OrderId
  pub instrument_id : InstrumentId
  pub price : PriceTicks
  pub quantity : Quantity
  pub sequence : SequenceNumber

pub record MatchSummary : Type 0 where
  pub state : OrderState
  pub filled_quantity : Quantity
  pub resting_quantity : Quantity
  pub discarded_quantity : Quantity
  pub report_count : ℕ
