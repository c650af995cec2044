-- ===== src/Book/OrderBook/Owned.antt =====
-- `cancel` and `replace`: what the owner of a resting order may do to it.
use deterministic_exchange_r.Prelude.{
  ◌-◌, List, [], ◌∷◌, Bool, true, false, not, ◌&&◌, none, some, ltb, ◌==◌, if◌then◌else◌, length,
}
use deterministic_exchange_r.Prelude.Int.{pos, ltb_ℤ}
use deterministic_exchange_r.Prelude.Outcome
use deterministic_exchange_r.Prelude.Outcome.{Outcome, ok, err, panic, ok_or, unwrap}
use deterministic_exchange_r.Prelude.Effect.{◌>>=◌, ◌>>◌, return, lift, get, guard}
use deterministic_exchange_r.Types.{
  OrderId, AccountId, PriceTicks, Quantity, Side, buy, sell, ReplaceOrder, CancelOrder,
  RejectReason, invalid_instrument, invalid_price, invalid_quantity, unknown_order, not_order_owner,
  replace_would_cross, price_level_order_capacity, price_level_capacity,
}
use deterministic_exchange_r.Book.Level.{get_live, unlink, reduce_quantity}
use deterministic_exchange_r.Book.LevelIndex
use deterministic_exchange_r.Book.LevelIndex.{Entry, eq_price}
use deterministic_exchange_r.Book.OrderIndex.{OrderLocation}
use deterministic_exchange_r.Book.OrderBook.{
  OrderBook, BookCall, side_of, opposite, is_descending, occupied_level, on_level, expect,
  drop_if_empty, locate, remove_index_entry, rest_at_tail, resting_order,
}

pub record CancelledOrder : Type 0 where
  pub order_id : OrderId
  pub account_id : AccountId
  pub quantity : Quantity

pub record ReplacedOrder : Type 0 where
  pub order_id : OrderId
  pub account_id : AccountId
  pub old_quantity : Quantity
  pub new_quantity : Quantity
  pub price : PriceTicks
  pub priority_lost : Bool

unfoldable pub cancel : CancelOrder → BookCall CancelledOrder
unfolding locate remove_index_entry
cancel request = do
  b ← get
  guard (request.instrument_id == b.instrument) invalid_instrument
  (p, owner) ← lift (ok_or (locate b request.order_id) unknown_order)
  guard (owner == request.account_id) not_order_owner
  removed ← expect (on_level p.side p.level_index (unlink p.slot))
  drop_if_empty p.side p.level_index
  _ ← remove_index_entry removed.index_slot request.order_id
  return (record {
    order_id = removed.id;
    account_id = removed.account_id;
    quantity = removed.quantity;
  })

-- A repriced order would cross the best price of the other side.
abbrev pub would_cross : Side → PriceTicks → List Entry → Bool
would_cross side price [] = false
would_cross buy price (e ∷ _) = not (ltb_ℤ price e.0)
would_cross sell price (e ∷ _) = not (ltb_ℤ e.0 price)

-- Room at the new price, judged against the unchanged book.
unfoldable pub room_to_move :
    OrderBook → OrderLocation → PriceTicks → PriceTicks → Outcome RejectReason (Unit {0})
room_to_move b p old_price price =
    let s = side_of b p.side in
    elim (LevelIndex.find price (is_descending p.side) s.sorted) [
      | some i ↦ Outcome.◌>>=◌ (occupied_level s i) λ level.
          Outcome.guard
            (not
              (level.len == b.shape.orders && not (i == p.level_index && eq_price price old_price)))
            price_level_order_capacity
      | none ↦ Outcome.◌>>=◌ (occupied_level s p.level_index) λ source.
          Outcome.guard
            (not (b.shape.levels - length s.sorted.entries == 0 && not (source.len == 1)))
            price_level_capacity
    ]

-- The order is taken out and goes to the tail at its new price.
unfoldable pub requeue : ReplaceOrder → OrderLocation → BookCall (Unit {0})
unfolding remove_index_entry rest_at_tail
requeue request p = do
  removed ← expect (on_level p.side p.level_index (unlink p.slot))
  drop_if_empty p.side p.level_index
  _ ← remove_index_entry removed.index_slot request.order_id
  rest_at_tail p.side request.price
      (resting_order request.order_id request.account_id request.quantity request.sequence)

abbrev pub replaced : ReplaceOrder → Quantity → Bool → ReplacedOrder
replaced request old lost = record {
  order_id = request.order_id;
  account_id = request.account_id;
  old_quantity = old;
  new_quantity = request.quantity;
  price = request.price;
  priority_lost = lost;
}

unfoldable pub replace : ReplaceOrder → BookCall ReplacedOrder
unfolding locate room_to_move requeue
replace request = do
  b ← get
  guard (request.instrument_id == b.instrument) invalid_instrument
  (p, owner) ← lift (ok_or (locate b request.order_id) unknown_order)
  guard (owner == request.account_id) not_order_owner
  guard (ltb_ℤ (pos 0) request.price) invalid_price
  guard (not (request.quantity == 0)) invalid_quantity
  level ← lift (occupied_level (side_of b p.side) p.level_index)
  old ← lift (unwrap (get_live level p.slot))
  if eq_price request.price level.price && ltb request.quantity old.quantity
      then (do
        _ ← expect (
            on_level p.side p.level_index
              (reduce_quantity p.slot (old.quantity - request.quantity)))
        return (replaced request old.quantity false))
      else (do
        guard
            (not (
              not (eq_price request.price level.price)
              && would_cross p.side request.price (side_of b (opposite p.side)).sorted.entries))
            replace_would_cross
        lift (room_to_move b p level.price request.price)
        requeue request p
        return (replaced request old.quantity true))
