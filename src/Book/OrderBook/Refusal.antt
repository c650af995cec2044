-- ===== src/Book/OrderBook/Refusal.antt =====
-- A refused cancellation or replacement leaves the book as it was.
use deterministic_exchange_r.Prelude.{◌-◌, ◌≡◌, true, false, not, ◌&&◌, if◌then◌else◌, ltb, ◌==◌}
use deterministic_exchange_r.Prelude.Int.{pos, ltb_ℤ}
use deterministic_exchange_r.Prelude.Outcome.{err, unwrap, ok_or}
use deterministic_exchange_r.Prelude.Effect.{◌>>=◌, ◌>>◌, return, lift, guard}
use deterministic_exchange_r.Prelude.Refusal.{
  NoError, KeepsOnError, NoError-bind, NoError-keeps, keeps-if, keeps-bind_lift, keeps-guard,
}
use deterministic_exchange_r.Types.{
  OrderId, AccountId, CancelOrder, ReplaceOrder, RejectReason, invalid_instrument, unknown_order,
  not_order_owner, invalid_price, invalid_quantity, replace_would_cross,
}
use deterministic_exchange_r.Book.Level.{
  PriceLevel, RestingOrder, unlink, get_live, reduce_quantity,
}
use deterministic_exchange_r.Book.LevelIndex.{eq_price}
use deterministic_exchange_r.Book.OrderIndex.{OrderLocation}
use deterministic_exchange_r.Book.OrderBook.{
  OrderBook, BookCall, side_of, opposite, occupied_level, on_level, expect, drop_if_empty, locate,
  remove_index_entry, rest_at_tail, resting_order,
}
use deterministic_exchange_r.Book.OrderBook.Owned.{
  CancelledOrder, ReplacedOrder, cancel, would_cross, room_to_move, requeue, replaced, replace,
}
use deterministic_exchange_r.Book.OrderBook.Errorless.{
  unlink_at-NoError, reduce_at-NoError, drop_if_empty-NoError, remove_index_entry-NoError,
  rest_at_tail-NoError, return-NoError,
}

-- taking an order out, and going on with it
abbrev take_out : {A : Type 0} → OrderLocation → OrderId → (RestingOrder → BookCall A) → BookCall A
take_out p id next = expect (on_level p.side p.level_index (unlink p.slot)) >>= λ removed.
    drop_if_empty p.side p.level_index
    >> (remove_index_entry removed.index_slot id >>= λ _. next removed)

take_out-NoError :
    {A : Type 0} (p : OrderLocation) (id : OrderId) (next : RestingOrder → BookCall A)
    → ((removed : RestingOrder) → NoError (next removed))
    → NoError (take_out p id next)
take_out-NoError p id next sure =
    NoError-bind (expect (on_level p.side p.level_index (unlink p.slot)))
      (λ removed.
        drop_if_empty p.side p.level_index
        >> (remove_index_entry removed.index_slot id >>= λ _. next removed))
      (unlink_at-NoError p)
      (λ removed.
        NoError-bind (drop_if_empty p.side p.level_index)
          (λ _. remove_index_entry removed.index_slot id >>= λ _. next removed)
          (drop_if_empty-NoError p.side p.level_index)
          (λ _.
            NoError-bind (remove_index_entry removed.index_slot id) (λ _. next removed)
              (remove_index_entry-NoError removed.index_slot id) (λ _. sure removed)))

abbrev cancelled : RestingOrder → CancelledOrder
cancelled removed = record {
  order_id = removed.id;
  account_id = removed.account_id;
  quantity = removed.quantity;
}

abbrev cancel_at : CancelOrder → OrderLocation → BookCall CancelledOrder
cancel_at request p = take_out p request.order_id (λ removed. return (cancelled removed))

abbrev cancel_found : CancelOrder → OrderLocation × AccountId → BookCall CancelledOrder
cancel_found request found =
    guard (found.1 == request.account_id) not_order_owner >> cancel_at request found.0

-- A cancellation that is refused with an error leaves the book as it was.
pub cancel-refused :
    (b : OrderBook) (request : CancelOrder) (why : RejectReason)
    → (cancel request b).0 ≡ err why
    → (cancel request b).1 ≡ b
unfolding cancel
cancel-refused b request why =
    let located = ok_or (locate b request.order_id) unknown_order in
    keeps-guard (request.instrument_id == b.instrument) invalid_instrument
      (lift located >>= cancel_found request) b
      (keeps-bind_lift located (cancel_found request) b (λ found.
        keeps-guard (found.1 == request.account_id) not_order_owner (cancel_at request found.0) b (
          NoError-keeps (cancel_at request found.0) b (
            take_out-NoError found.0 request.order_id (λ removed. return (cancelled removed))
              (λ removed. return-NoError (cancelled removed))))))
      why

requeue-NoError : (request : ReplaceOrder) (p : OrderLocation) → NoError (requeue request p)
unfolding requeue
requeue-NoError request p =
    let resting =
      resting_order request.order_id request.account_id request.quantity request.sequence in
    take_out-NoError p request.order_id (λ removed. rest_at_tail p.side request.price resting)
      (λ removed. rest_at_tail-NoError p.side request.price resting)

module _ (b : OrderBook) (request : ReplaceOrder) (p : OrderLocation) where
  abbrev in_place : RestingOrder → BookCall ReplacedOrder
  in_place old =
      expect
        (on_level p.side p.level_index (reduce_quantity p.slot (old.quantity - request.quantity)))
      >>= λ _. return (replaced request old.quantity false)

  abbrev moved : PriceLevel → RestingOrder → BookCall ReplacedOrder
  moved level old =
      guard
        (not (
          not (eq_price request.price level.price)
          && would_cross p.side request.price (side_of b (opposite p.side)).sorted.entries))
        replace_would_cross
      >> (lift (room_to_move b p level.price request.price)
          >> (requeue request p >> return (replaced request old.quantity true)))

  abbrev replace_order : PriceLevel → RestingOrder → BookCall ReplacedOrder
  replace_order level old =
      if eq_price request.price level.price && ltb request.quantity old.quantity
      then in_place old
      else moved level old

  abbrev replace_in : PriceLevel → BookCall ReplacedOrder
  replace_in level = lift (unwrap (get_live level p.slot)) >>= replace_order level

  abbrev replace_at : BookCall ReplacedOrder
  replace_at = lift (occupied_level (side_of b p.side) p.level_index) >>= replace_in

  in_place-keeps : (old : RestingOrder) → KeepsOnError (in_place old) b
  in_place-keeps old =
      let less = old.quantity - request.quantity in
      NoError-keeps (in_place old) b (
        NoError-bind (expect (on_level p.side p.level_index (reduce_quantity p.slot less)))
          (λ _. return (replaced request old.quantity false))
          (reduce_at-NoError p.side p.level_index p.slot less)
          (λ _. return-NoError (replaced request old.quantity false)))

  moved-keeps : (level : PriceLevel) (old : RestingOrder) → KeepsOnError (moved level old) b
  moved-keeps level old =
      let answer = replaced request old.quantity true in
      keeps-guard
        (not (
          not (eq_price request.price level.price)
          && would_cross p.side request.price (side_of b (opposite p.side)).sorted.entries))
        replace_would_cross
        (lift (room_to_move b p level.price request.price) >> (requeue request p >> return answer))
        b
        (keeps-bind_lift (room_to_move b p level.price request.price)
          (λ _. requeue request p >> return answer) b
          (λ _. NoError-keeps (requeue request p >> return answer) b (
            NoError-bind (requeue request p) (λ _. return answer) (requeue-NoError request p)
              (λ _. return-NoError answer))))

  replace_at-keeps : KeepsOnError replace_at b
  replace_at-keeps =
      keeps-bind_lift (occupied_level (side_of b p.side) p.level_index) replace_in b (λ level.
        keeps-bind_lift (unwrap (get_live level p.slot)) (replace_order level) b (λ old.
          keeps-if (eq_price request.price level.price && ltb request.quantity old.quantity)
            (in_place old) (moved level old) b (in_place-keeps old) (moved-keeps level old)))

abbrev checked : OrderBook → ReplaceOrder → OrderLocation → BookCall ReplacedOrder
checked b request p =
    guard (ltb_ℤ (pos 0) request.price) invalid_price
    >> (guard (not (request.quantity == 0)) invalid_quantity >> replace_at b request p)

abbrev replace_found : OrderBook → ReplaceOrder → OrderLocation × AccountId → BookCall ReplacedOrder
replace_found b request found =
    guard (found.1 == request.account_id) not_order_owner >> checked b request found.0

-- A replacement that is refused with an error leaves the book as it was.
pub replace-refused :
    (b : OrderBook) (request : ReplaceOrder) (why : RejectReason)
    → (replace request b).0 ≡ err why
    → (replace request b).1 ≡ b
unfolding replace
replace-refused b request why =
    let located = ok_or (locate b request.order_id) unknown_order in
    keeps-guard (request.instrument_id == b.instrument) invalid_instrument
      (lift located >>= replace_found b request) b
      (keeps-bind_lift located (replace_found b request) b (λ found.
        keeps-guard (found.1 == request.account_id) not_order_owner (checked b request found.0) b (
          keeps-guard (ltb_ℤ (pos 0) request.price) invalid_price
            (guard (not (request.quantity == 0)) invalid_quantity >> replace_at b request found.0) b
            (keeps-guard (not (request.quantity == 0)) invalid_quantity
              (replace_at b request found.0) b (replace_at-keeps b request found.0)))))
      why
