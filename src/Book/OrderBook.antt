-- ===== src/Book/OrderBook.antt =====
-- `OrderBook`: its state, and the steps that its operations share. An `expect` that fails is a
-- panic. The debug assertions, which only compare, are left out.
mod Tests
pub mod Plan
pub mod Submit
pub mod Owned
pub mod Errorless
pub mod Refusal
use deterministic_exchange_r.Prelude.{
  ℕ, zero, suc, ◌+◌, ◌-◌, List, [], ◌∷◌, Bool, true, false, not, Option, none, some, ltb, leb, ◌==◌,
  if◌then◌else◌, get_elem?, set, length, replicate, min,
}
use deterministic_exchange_r.Prelude.Int.{pos, ltb_ℤ}
use deterministic_exchange_r.Prelude.Outcome
use deterministic_exchange_r.Prelude.Outcome.{Outcome, ok, err, panic, ok_or, unwrap}
use deterministic_exchange_r.Prelude.Effect.{Effect, ◌>>=◌, ◌>>◌, return, lift, get, put, guard}
use deterministic_exchange_r.Types.{
  OrderId, AccountId, InstrumentId, PriceTicks, Quantity, SequenceNumber, Side, buy, sell, NewOrder,
  RejectReason,
}
use deterministic_exchange_r.Risk.Index.{Table}
use deterministic_exchange_r.Book.Level
use deterministic_exchange_r.Book.Level.{
  RestingOrder, PriceLevel, nil, get_live, live_at, live, push_tail, unlink, reduce_quantity,
}
use deterministic_exchange_r.Book.LevelIndex
use deterministic_exchange_r.Book.LevelIndex.{LevelIndex}
use deterministic_exchange_r.Book.OrderIndex
use deterministic_exchange_r.Book.OrderIndex.{OrderLocation, Shape}

-- One side: its level slots and their sorted index.
pub record BookSide : Type 0 where
  pub slots : List (Option PriceLevel)
  pub sorted : LevelIndex

-- LEVELS and ORDERS_PER_LEVEL are the shape.
pub record OrderBook : Type 0 where
  pub shape : Shape
  pub instrument : InstrumentId
  pub bids : BookSide
  pub asks : BookSide
  pub index : Table

abbrev pub BookCall : Type 0 → Type 0
BookCall A = Effect OrderBook RejectReason A

unfoldable pub new_side : ℕ → BookSide
new_side levels = record { slots = replicate levels none; sorted = LevelIndex.new levels }

unfoldable pub new : Shape → InstrumentId → OrderBook
new shape instrument = record {
  shape = shape;
  instrument = instrument;
  bids = new_side shape.levels;
  asks = new_side shape.levels;
  index = OrderIndex.new shape;
}

-- `side_levels` and `side_index`, and what `side_levels_mut` and `side_index_mut` write to.
abbrev pub side_of : OrderBook → Side → BookSide
side_of b buy = b.bids
side_of b sell = b.asks

abbrev pub with_side : OrderBook → Side → BookSide → OrderBook
with_side b buy s = record b { bids = s }
with_side b sell s = record b { asks = s }

abbrev pub opposite : Side → Side
opposite buy = sell
opposite sell = buy

abbrev pub is_descending : Side → Bool
is_descending buy = true
is_descending sell = false

-- `levels[level_index].as_ref()`: out of range is a panic.
abbrev pub level_at : {E : Type 0} → BookSide → ℕ → Outcome E (Option PriceLevel)
level_at s i = unwrap (get_elem? s.slots i)

-- the level, for an `expect` that it is there
abbrev pub occupied_level : {E : Type 0} → BookSide → ℕ → Outcome E PriceLevel
occupied_level s i = Outcome.◌>>=◌ (level_at s i) unwrap

-- A call on one level of a side, in place.
abbrev pub on_level : {A : Type 0} → Side → ℕ → Effect PriceLevel RejectReason A → BookCall A
on_level side i call b = elim (occupied_level {E = RejectReason} (side_of b side) i) [
  | panic ↦ (panic, b)
  | err e ↦ (err e, b)
  | ok level ↦
      let (result, level') = call level in
      let s = side_of b side in
      (result, with_side b side (record s { slots = set s.slots i (some level') }))
]

-- A call on the sorted index of a side.
abbrev pub on_sorted : {A : Type 0} → Side → Effect LevelIndex RejectReason A → BookCall A
on_sorted side call b =
    let s = side_of b side in
    let (result, sorted) = call s.sorted in
    (result, with_side b side (record s { sorted = sorted }))

-- `call().expect(..)`
abbrev pub expect : {A : Type 0} → BookCall (Option A) → BookCall A
expect call = do found ← call; lift (unwrap found)

abbrev pub vacate : Side → ℕ → BookCall (Unit {0})
vacate side i b =
    let s = side_of b side in (ok tt, with_side b side (record s { slots = set s.slots i none }))

abbrev pub occupy : Side → ℕ → PriceLevel → BookCall (Unit {0})
occupy side i level b =
    let s = side_of b side in
    (ok tt, with_side b side (record s { slots = set s.slots i (some level) }))

-- the live order at a place, if there is one
abbrev pub resting_at : BookSide → ℕ → ℕ → Option RestingOrder
resting_at s level slot = elim (get_elem? s.slots level) [
  | some (some l) ↦ get_live l slot
  | some none ↦ none
  | none ↦ none
]

-- `locate`
unfoldable pub locate : OrderBook → OrderId → Option (OrderLocation × AccountId)
locate b id = elim (OrderIndex.location b.shape b.index id) [
  | none ↦ none
  | some p ↦ elim (resting_at (side_of b p.side) p.level_index p.slot) [
    | none ↦ none
    | some order ↦ if order.id == id then some (p, order.account_id) else none
  ]
]

unfoldable pub contains_order : OrderBook → OrderId → Bool
contains_order b id = elim (OrderIndex.location b.shape b.index id) [ some _ ↦ true | none ↦ false ]

abbrev pub place_in_index : ℕ → RestingOrder → RestingOrder
place_in_index index_slot order = record order { index_slot = index_slot }

-- The write to `index_slot` of the live order at a place; nothing without one.
abbrev pub set_index_slot : BookSide → ℕ → ℕ → ℕ → BookSide
set_index_slot s level slot index_slot = elim (get_elem? s.slots level) [
  | none ↦ s
  | some none ↦ s
  | some (some l) ↦ elim (live_at l.slots slot) [
    | none ↦ s
    | some order ↦
        let order' = place_in_index index_slot order in
        let l' : PriceLevel = record l { slots = set l.slots slot (live order') } in
        record s { slots = set s.slots level (some l') }
  ]
]

-- The closure of `remove_index_entry`: a moved entry's order is told its new place.
unfoldable pub update_reverse_slot : OrderId → OrderLocation → ℕ → OrderBook → OrderBook
update_reverse_slot moved_id p new_slot b =
    elim (resting_at (side_of b p.side) p.level_index p.slot) [
      | none ↦ b
      | some order ↦
          if order.id == moved_id
          then with_side b p.side (set_index_slot (side_of b p.side) p.level_index p.slot new_slot)
          else b
    ]

unfoldable pub remove_index_entry : ℕ → OrderId → BookCall (Option OrderLocation)
unfolding update_reverse_slot
remove_index_entry index_slot id b =
    elim (OrderIndex.remove_at b.shape update_reverse_slot b.index index_slot id b) [
      | none ↦ (panic, b)
      | some (found, index, b') ↦ (ok found, record b' { index = index })
    ]

-- A level that a removal has emptied goes.
abbrev pub drop_if_empty : Side → ℕ → BookCall (Unit {0})
drop_if_empty side i = do
  b ← get
  level ← lift (occupied_level (side_of b side) i)
  if level.len == 0
      then (do
        vacate side i
        _ ← on_sorted side (LevelIndex.remove level.price (is_descending side))
        return tt)
      else return tt

unfoldable pub remove_filled_order : OrderLocation → OrderId → ℕ → BookCall (Unit {0})
unfolding remove_index_entry
remove_filled_order p id index_slot = do
  _ ← remove_index_entry index_slot id
  _ ← expect (on_level p.side p.level_index (unlink p.slot))
  drop_if_empty p.side p.level_index

-- The level at the price, made if there is none.
abbrev pub level_for : Side → PriceTicks → BookCall ℕ
level_for side price = do
  b ← get
  elim (LevelIndex.find price (is_descending side) (side_of b side).sorted) [
    | some i ↦ return i
    | none ↦ do
      i ← expect (on_sorted side (LevelIndex.insert price (is_descending side)))
      occupy side i (Level.new b.shape.orders price)
      return i
  ]

-- `index.insert(..).expect(..)`: an error is a panic.
abbrev pub index_order : OrderId → OrderLocation → BookCall ℕ
index_order id p b =
    let (result, index) = OrderIndex.insert b.shape b.index id p in
    (elim result [ ok i ↦ ok i | err _ ↦ panic | panic ↦ panic ], record b { index = index })

unfoldable pub rest_at_tail : Side → PriceTicks → RestingOrder → BookCall (Unit {0})
rest_at_tail side price resting = do
  i ← level_for side price
  slot ← expect (on_level side i (push_tail resting))
  index_slot ← index_order resting.id (record { side = side; level_index = i; slot = slot })
  b ← get
  order ← lift (unwrap (resting_at (side_of b side) i slot))
  put (with_side b side (set_index_slot (side_of b side) i slot index_slot))

abbrev pub resting_order : OrderId → AccountId → Quantity → SequenceNumber → RestingOrder
resting_order id account quantity sequence = record {
  id = id;
  account_id = account;
  index_slot = 0;
  quantity = quantity;
  sequence = sequence;
  prev = nil;
  next = nil;
}

unfoldable pub rest : NewOrder → Quantity → BookCall (Unit {0})
unfolding rest_at_tail
rest order quantity =
    rest_at_tail order.side order.price
      (resting_order order.order_id order.account_id quantity order.sequence)
