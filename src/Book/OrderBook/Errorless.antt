-- ===== src/Book/OrderBook/Errorless.antt =====
-- The steps of the book that cannot fail with an error once an operation has started to write.
use deterministic_exchange_r.Prelude.{
  ℕ, ◌≢◌, inl, inr, Bool, Option, none, some, ◌==◌, Bool-cases, Option-cases, get_elem?, set, arith,
}
use deterministic_exchange_r.Prelude.Outcome.{err, unwrap, outcome-cases}
use deterministic_exchange_r.Prelude.Effect.{Effect, ◌>>=◌, return, lift, get, put}
use deterministic_exchange_r.Prelude.Refusal.{NoError, NoError-bind}
use deterministic_exchange_r.Types.{OrderId, PriceTicks, Quantity, Side, NewOrder, RejectReason}
use deterministic_exchange_r.Book.Level.{
  PriceLevel, RestingOrder, push_tail, unlink, reduce_quantity, live_at, free_at, is_live, nil,
}
use deterministic_exchange_r.Book.Level
use deterministic_exchange_r.Book.LevelIndex
use deterministic_exchange_r.Book.LevelIndex.{LevelIndex, position}
use deterministic_exchange_r.Book.OrderIndex
use deterministic_exchange_r.Book.OrderIndex.{OrderLocation}
use deterministic_exchange_r.Book.OrderBook.{
  BookSide, BookCall, with_side, occupy, side_of, is_descending, occupied_level, on_level,
  on_sorted, expect, drop_if_empty, remove_index_entry, update_reverse_slot, remove_filled_order,
  level_for, index_order, rest_at_tail, rest, resting_order, resting_at, set_index_slot,
}

pub unwrap-NoError {ℓ κ} :
    {S : Type ℓ} {A : Type κ} (o : Option A) → NoError {S = S} {E = RejectReason} (lift (unwrap o))
unwrap-NoError none s why refused = cc
unwrap-NoError (some a) s why refused = cc

pub return-NoError {ℓ κ} :
    {S : Type ℓ} {A : Type κ} (a : A) → NoError {S = S} {E = RejectReason} (return a)
return-NoError a s why refused = cc

unlink-NoError : (slot : ℕ) → NoError (unlink slot)
unfolding unlink
unlink-NoError slot l why refused = ground arith

push_tail-NoError : (order : RestingOrder) → NoError (push_tail order)
unfolding push_tail
push_tail-NoError order l why refused = ground arith

reduce_quantity-NoError : (slot : ℕ) (quantity : Quantity) → NoError (reduce_quantity slot quantity)
unfolding reduce_quantity
reduce_quantity-NoError slot quantity l why refused = ground arith

insert-NoError : (price : PriceTicks) (d : Bool) → NoError (LevelIndex.insert price d)
unfolding LevelIndex.insert
insert-NoError price d x why refused = ground arith

remove-NoError : (price : PriceTicks) (d : Bool) → NoError (LevelIndex.remove price d)
unfolding LevelIndex.remove
remove-NoError price d x why refused = ground arith

pub occupied_level-no_error :
    (s : BookSide) (i : ℕ) (why : RejectReason) → occupied_level s i ≢ err why
occupied_level-no_error s i why refused = elim (Option-cases (get_elem? s.slots i)) [
  | inl past ↦ let r = rw past at refused in cc
  | inr (none, at) ↦ let r = rw at at refused in cc
  | inr (some l, at) ↦ let r = rw at at refused in cc
]

pub on_level-NoError :
    {A : Type 0} (side : Side) (i : ℕ) (call : Effect PriceLevel RejectReason A)
    → NoError call
    → NoError (on_level side i call)
on_level-NoError side i call sure b why refused =
    elim (outcome-cases (occupied_level {E = RejectReason} (side_of b side) i)) [
      | inl (l, there) ↦ let r = rw (on_level, there) at refused in sure l why r
      | inr (inl (e, failed)) ↦ occupied_level-no_error (side_of b side) i e failed
      | inr (inr stuck) ↦ let r = rw (on_level, stuck) at refused in cc
    ]

on_sorted-NoError :
    {A : Type 0} (side : Side) (call : Effect LevelIndex RejectReason A)
    → NoError call
    → NoError (on_sorted side call)
on_sorted-NoError side call sure b why refused = sure (side_of b side).sorted why refused

expect-NoError : {A : Type 0} (call : BookCall (Option A)) → NoError call → NoError (expect call)
expect-NoError call sure =
    NoError-bind call (λ found. lift (unwrap found)) sure (λ found. unwrap-NoError found)

pub unlink_at-NoError :
    (p : OrderLocation) → NoError (expect (on_level p.side p.level_index (unlink p.slot)))
unlink_at-NoError p =
    expect-NoError (on_level p.side p.level_index (unlink p.slot))
      (on_level-NoError p.side p.level_index (unlink p.slot) (unlink-NoError p.slot))

pub reduce_at-NoError :
    (side : Side) (i slot : ℕ) (q : Quantity)
    → NoError (expect (on_level side i (reduce_quantity slot q)))
reduce_at-NoError side i slot q =
    expect-NoError (on_level side i (reduce_quantity slot q))
      (on_level-NoError side i (reduce_quantity slot q) (reduce_quantity-NoError slot q))

drop_level-NoError :
    (side : Side) (price : PriceTicks)
    → NoError {A = Unit {0}}
        (on_sorted side (LevelIndex.remove price (is_descending side)) >>= λ _. return tt)
drop_level-NoError side price =
    NoError-bind (on_sorted side (LevelIndex.remove price (is_descending side))) (λ _. return tt)
      (on_sorted-NoError side (LevelIndex.remove price (is_descending side))
        (remove-NoError price (is_descending side)))
      (λ _. return-NoError tt)

pub drop_if_empty-NoError : (side : Side) (i : ℕ) → NoError (drop_if_empty side i)
drop_if_empty-NoError side i b why refused =
    elim (outcome-cases (occupied_level {E = RejectReason} (side_of b side) i)) [
      | inl (l, there) ↦ elim (Bool-cases (l.len == 0)) [
        | inl empty ↦
            let r = rw (there, empty) at refused in
            drop_level-NoError side l.price
              (with_side b side
                (record (side_of b side) { slots = set (side_of b side).slots i none }))
              why r
        | inr others ↦ let r = rw (there, others) at refused in cc
      ]
      | inr (inl (e, failed)) ↦ occupied_level-no_error (side_of b side) i e failed
      | inr (inr stuck) ↦ let r = rw stuck at refused in cc
    ]

pub remove_index_entry-NoError :
    (index_slot : ℕ) (id : OrderId) → NoError (remove_index_entry index_slot id)
unfolding remove_index_entry
remove_index_entry-NoError index_slot id b why refused =
    elim (Option-cases (OrderIndex.remove_at b.shape update_reverse_slot b.index index_slot id b)) [
      | inl stuck ↦ let r = rw (remove_index_entry, stuck) at refused in cc
      | inr (found, done) ↦ let r = rw (remove_index_entry, done) at refused in cc
    ]

pub remove_filled_order-NoError :
    (p : OrderLocation) (id : OrderId) (index_slot : ℕ)
    → NoError (remove_filled_order p id index_slot)
unfolding remove_filled_order
remove_filled_order-NoError p id index_slot =
    NoError-bind (remove_index_entry index_slot id)
      (λ _. expect (on_level p.side p.level_index (unlink p.slot)) >>= λ _.
        drop_if_empty p.side p.level_index)
      (remove_index_entry-NoError index_slot id)
      (λ _.
        NoError-bind (expect (on_level p.side p.level_index (unlink p.slot)))
          (λ _. drop_if_empty p.side p.level_index) (unlink_at-NoError p)
          (λ _. drop_if_empty-NoError p.side p.level_index))

make_level-NoError :
    (side : Side) (price : PriceTicks) (level : PriceLevel)
    → NoError (
        expect (on_sorted side (LevelIndex.insert price (is_descending side))) >>= λ i.
        occupy side i level >>= λ _. return i)
make_level-NoError side price level =
    NoError-bind (expect (on_sorted side (LevelIndex.insert price (is_descending side))))
      (λ i. occupy side i level >>= λ _. return i)
      (expect-NoError (on_sorted side (LevelIndex.insert price (is_descending side))) (
        on_sorted-NoError side (LevelIndex.insert price (is_descending side))
          (insert-NoError price (is_descending side))))
      (λ i b why refused. cc)

choose_level-NoError :
    (side : Side) (price : PriceTicks) (level : PriceLevel) (found : Option ℕ)
    → NoError (elim found [
      | some i ↦ return i
      | none ↦ expect (on_sorted side (LevelIndex.insert price (is_descending side))) >>= λ i.
          occupy side i level >>= λ _. return i
    ])
choose_level-NoError side price level none = make_level-NoError side price level
choose_level-NoError side price level (some i) = return-NoError i

level_for-NoError : (side : Side) (price : PriceTicks) → NoError (level_for side price)
level_for-NoError side price b =
    choose_level-NoError side price (Level.new b.shape.orders price)
      (LevelIndex.find price (is_descending side) (side_of b side).sorted) b

index_order-NoError : (id : OrderId) (p : OrderLocation) → NoError (index_order id p)
index_order-NoError id p b why refused = ground arith

abbrev record_slot : Side → ℕ → ℕ → ℕ → BookCall (Unit {0})
record_slot side i slot index_slot = get >>= λ b.
    lift (unwrap (resting_at (side_of b side) i slot)) >>= λ _.
    put (with_side b side (set_index_slot (side_of b side) i slot index_slot))

record_slot-NoError :
    (side : Side) (i slot index_slot : ℕ) → NoError (record_slot side i slot index_slot)
record_slot-NoError side i slot index_slot b =
    NoError-bind (lift (unwrap (resting_at (side_of b side) i slot)))
      (λ _. put (with_side b side (set_index_slot (side_of b side) i slot index_slot)))
      (unwrap-NoError (resting_at (side_of b side) i slot)) (λ _ b' why refused. cc) b

abbrev place_at : Side → ℕ → ℕ → OrderLocation
place_at side i slot = record { side = side; level_index = i; slot = slot }

pub rest_at_tail-NoError :
    (side : Side) (price : PriceTicks) (resting : RestingOrder)
    → NoError (rest_at_tail side price resting)
unfolding rest_at_tail
rest_at_tail-NoError side price resting =
    NoError-bind (level_for side price)
      (λ i. expect (on_level side i (push_tail resting)) >>= λ slot.
        index_order resting.id (place_at side i slot) >>= λ k. record_slot side i slot k)
      (level_for-NoError side price)
      (λ i.
        NoError-bind (expect (on_level side i (push_tail resting)))
          (λ slot. index_order resting.id (place_at side i slot) >>= λ k. record_slot side i slot k)
          (expect-NoError (on_level side i (push_tail resting))
            (on_level-NoError side i (push_tail resting) (push_tail-NoError resting)))
          (λ slot.
            NoError-bind (index_order resting.id (place_at side i slot))
              (λ k. record_slot side i slot k)
              (index_order-NoError resting.id (place_at side i slot))
              (λ k. record_slot-NoError side i slot k)))

pub rest-NoError : (order : NewOrder) (quantity : Quantity) → NoError (rest order quantity)
unfolding rest
rest-NoError order quantity =
    rest_at_tail-NoError order.side order.price
      (resting_order order.order_id order.account_id quantity order.sequence)
