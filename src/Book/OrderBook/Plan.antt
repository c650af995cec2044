-- ===== src/Book/OrderBook/Plan.antt =====
-- `validate_order`, `MatchPlan` and `build_plan`: what a new order will trade, decided before
-- anything is changed.
pub mod Priority
pub mod LevelWalk
pub mod Fifo
pub mod Remainder
pub mod Nothing
pub mod Conservation
pub mod Decision
use deterministic_exchange_r.Prelude.{
  ℕ, zero, suc, ◌+◌, ◌-◌, List, [], ◌∷◌, ◌++◌, Bool, true, false, not, Option, none, some, ltb, leb,
  ◌==◌, if◌then◌else◌, get_elem?, length, min,
}
use deterministic_exchange_r.Prelude.Int.{pos, ltb_ℤ}
use deterministic_exchange_r.Prelude.Outcome.{Outcome, ok, err, panic, ◌>>=◌, ◌>>◌, guard}
use deterministic_exchange_r.Types.{
  OrderId, PriceTicks, Quantity, Side, buy, sell, TimeInForce, gtc, ioc, fok, post_only, NewOrder,
  RejectReason, invalid_instrument, invalid_price, invalid_quantity, duplicate_order_id,
  post_only_would_trade, report_capacity, insufficient_liquidity, price_level_order_capacity,
  price_level_capacity,
}
use deterministic_exchange_r.Book.Level.{RestingOrder, OrderSlot, live_at, nil}
use deterministic_exchange_r.Book.LevelIndex
use deterministic_exchange_r.Book.LevelIndex.{Entry}
use deterministic_exchange_r.Book.OrderBook.{
  OrderBook, BookSide, side_of, opposite, is_descending, occupied_level, contains_order,
}

-- A maker at the best price crosses an order of the side and price.
abbrev pub crosses : Side → PriceTicks → PriceTicks → Bool
crosses buy maker price = not (ltb_ℤ price maker)
crosses sell maker price = not (ltb_ℤ maker price)

abbrev pub best_crosses : Side → PriceTicks → List Entry → Bool
best_crosses side price [] = false
best_crosses side price (e ∷ _) = crosses side e.0 price

abbrev pub is_post_only : TimeInForce → Bool
is_post_only post_only = true
is_post_only _ = false

unfoldable pub validate_order : OrderBook → NewOrder → Outcome RejectReason Side
unfolding contains_order
validate_order b order = do
  guard (order.instrument_id == b.instrument) invalid_instrument
  guard (ltb_ℤ (pos 0) order.price) invalid_price
  guard (not (order.quantity == 0)) invalid_quantity
  guard (not (contains_order b order.order_id)) duplicate_order_id
  let maker_side = opposite order.side
  guard
      (not (
        if is_post_only order.time_in_force
        then best_crosses order.side order.price (side_of b maker_side).sorted.entries
        else false))
      post_only_would_trade
  ok maker_side

pub record FillEntry : Type 0 where
  pub level_index : ℕ
  pub slot : ℕ
  pub order_id : OrderId
  pub price : PriceTicks
  pub quantity : Quantity

-- `fills` is the part of the array that counts.
pub record MatchPlan : Type 0 where
  pub fills : List FillEntry
  pub maker_side : Side
  pub resting_quantity : Quantity
  pub discarded : ℕ

-- Where the walk stands: the fills so far, and the quantity that is left.
pub record Walk : Type 0 where
  pub fills : List FillEntry
  pub remaining : ℕ

unfoldable pub push_fill : ℕ → FillEntry → List FillEntry → Outcome RejectReason (List FillEntry)
push_fill capacity fill fills =
    if leb capacity (length fills) then err report_capacity else ok (fills ++ fill ∷ [])

-- The `while` loop over one level, on fuel; out of fuel is a panic, as is a link to no live slot.
unfoldable pub walk_level :
    ℕ → ℕ → ℕ → PriceTicks → List OrderSlot → ℕ → Walk → Outcome RejectReason Walk
walk_level zero capacity level price slots cursor w = panic
walk_level (suc fuel) capacity level price slots cursor w =
    if cursor == nil then ok w else if w.remaining == 0 then ok w else elim (live_at slots cursor) [
      | none ↦ panic
      | some maker ↦
          let traded = min w.remaining maker.quantity in
          let fill : FillEntry = record {
            level_index = level;
            slot = cursor;
            order_id = maker.id;
            price = price;
            quantity = traded;
          } in
          push_fill capacity fill w.fills >>= λ fills.
          walk_level fuel capacity level price slots maker.next
            (record { fills = fills; remaining = w.remaining - traded })
    ]

-- The `for` loop over the levels, best first.
unfoldable pub walk_levels :
    BookSide → Side → PriceTicks → ℕ → List Entry → Walk → Outcome RejectReason Walk
walk_levels s side price capacity [] w = ok w
walk_levels s side price capacity (e ∷ es) w =
    if w.remaining == 0
    then ok w
    else if not (crosses side e.0 price)
    then ok w
    else occupied_level s e.1 >>= λ level.
        walk_level (length level.slots + 1) capacity e.1 e.0 level.slots level.head w >>= λ w'.
        walk_levels s side price capacity es w'

-- Whether what is left over can rest: in the level at its price, or in a new one.
unfoldable pub room_to_rest : OrderBook → NewOrder → Outcome RejectReason (Unit {0})
room_to_rest b order =
    let s = side_of b order.side in
    elim (LevelIndex.find order.price (is_descending order.side) s.sorted) [
      | some i ↦ occupied_level s i >>= λ level.
          guard (not (level.len == b.shape.orders)) price_level_order_capacity
      | none ↦ guard (not (LevelIndex.is_full s.sorted)) price_level_capacity
    ]

-- The `match order.time_in_force`: what rests, and what is discarded.
unfoldable pub settle_remainder :
    OrderBook → NewOrder → TimeInForce → ℕ → Outcome RejectReason (ℕ × ℕ)
settle_remainder b order fok remaining =
    guard (remaining == 0) insufficient_liquidity >> ok (remaining, 0)
settle_remainder b order ioc remaining = ok (0, remaining)
settle_remainder b order gtc remaining =
    if remaining == 0 then ok (remaining, 0) else room_to_rest b order >> ok (remaining, 0)
settle_remainder b order post_only remaining =
    if remaining == 0 then ok (remaining, 0) else room_to_rest b order >> ok (remaining, 0)

-- `reports_max` is REPORTS, `report_room` what the buffer has left.
unfoldable pub build_plan : ℕ → OrderBook → NewOrder → Side → ℕ → Outcome RejectReason MatchPlan
build_plan reports_max b order maker_side report_room = do
  let s = side_of b maker_side
  w ←
      walk_levels s order.side order.price (min report_room reports_max) s.sorted.entries
        (record { fills = []; remaining = order.quantity })
  (resting, discarded) ← settle_remainder b order order.time_in_force w.remaining
  ok (record {
    fills = w.fills;
    maker_side = maker_side;
    resting_quantity = resting;
    discarded = discarded;
  })
