-- ===== src/Book/OrderBook/Plan/Remainder.antt =====
-- What becomes of the quantity that the makers leave over, and when it is refused.
use deterministic_exchange_r.Prelude.{
  ℕ, ◌+◌, ◌<◌, ◌≡◌, ◌≢◌, refl, ◌⊎◌, inl, inr, List, [], ◌∷◌, Option, none, some, ◌==◌,
  if◌then◌else◌, get_elem?, length, Bool-cases, arith,
}
use deterministic_exchange_r.Prelude.Outcome.{Outcome, ok, err, ◌>>◌}
use deterministic_exchange_r.Types.{
  PriceTicks, TimeInForce, gtc, ioc, fok, post_only, NewOrder, RejectReason, insufficient_liquidity,
  price_level_order_capacity, price_level_capacity,
}
use deterministic_exchange_r.Book.Level.{PriceLevel}
use deterministic_exchange_r.Book.Level.Segment.{Cells}
use deterministic_exchange_r.Book.LevelIndex
use deterministic_exchange_r.Book.LevelIndex.{LevelIndex, Entry, eq_price}
use deterministic_exchange_r.Book.LevelIndex.Sorted.{Sorted, listed, find-listed}
use deterministic_exchange_r.Book.OrderBook.{OrderBook, BookSide, side_of, is_descending}
use deterministic_exchange_r.Book.OrderBook.Plan.{room_to_rest, settle_remainder}
use deterministic_exchange_r.Book.OrderBook.Plan.Priority.{Backed}

-- the queue at a price, if there is one
abbrev pub queue_at : PriceTicks → List Entry → List Cells → Option Cells
queue_at price (e ∷ es) (cells ∷ queues) =
    if eq_price e.0 price then some cells else queue_at price es queues
queue_at price _ _ = none

-- The order's own side can take its remainder: the queue at its price is not full, or a level is left.
abbrev pub HasRoom : ℕ → List ℕ → Option Cells → Type 0
HasRoom orders free (some cells) = length cells ≢ orders
HasRoom orders free none = 0 < length free

-- why it cannot, with the error for it
abbrev pub NoRoom : ℕ → List ℕ → Option Cells → RejectReason → Type 0
NoRoom orders free (some cells) why = (length cells ≡ orders) × (why ≡ price_level_order_capacity)
NoRoom orders free none why = (length free ≡ 0) × (why ≡ price_level_capacity)

-- The listed level is there, and has as many orders as the queue at the price.
listed-queue_at :
    (s : BookSide) (price : PriceTicks) (es : List Entry) (queues : List Cells)
    → Backed s es queues
    → ((listed price es ≡ none) × (queue_at price es queues ≡ none))
      ⊎ ((i : ℕ) × (l : PriceLevel) × (cells : Cells) × (listed price es ≡ some i)
          × (queue_at price es queues ≡ some cells)
          × (get_elem? s.slots i ≡ some (some l))
          × (l.len ≡ length cells))
listed-queue_at s price [] queues b = inl (refl, refl)
listed-queue_at s price (e ∷ es) [] b = absurd b
listed-queue_at s price (e ∷ es) (q ∷ qs) b = elim (Bool-cases (eq_price e.0 price)) [
  | inl here ↦
      let (l, there, refines) = b.0 in rw here (inr (e.1, l, q, refl, refl, there, refines.1.len))
  | inr other ↦ rw other (listed-queue_at s price es qs b.1)
]

module _ (b : OrderBook) (order : NewOrder) (own : List Cells) where
  abbrev pub own_queue : Option Cells
  own_queue = queue_at order.price (side_of b order.side).sorted.entries own

  -- Of the quantity that is left over: what rests and what is discarded, by the time in force.
  abbrev pub Settled : TimeInForce → ℕ → ℕ → ℕ → Type 0
  Settled fok left resting discarded = (left ≡ 0) × (resting ≡ 0) × (discarded ≡ 0)
  Settled ioc left resting discarded = (resting ≡ 0) × (discarded ≡ left)
  Settled gtc left resting discarded =
      (resting ≡ left)
      × (discarded ≡ 0)
      × ((left ≡ 0) ⊎ HasRoom b.shape.orders (side_of b order.side).sorted.free own_queue)
  Settled post_only left resting discarded =
      (resting ≡ left)
      × (discarded ≡ 0)
      × ((left ≡ 0) ⊎ HasRoom b.shape.orders (side_of b order.side).sorted.free own_queue)

  -- Why what is left over is refused.
  abbrev pub Unsettled : TimeInForce → ℕ → RejectReason → Type 0
  Unsettled fok left why = (0 < left) × (why ≡ insufficient_liquidity)
  Unsettled ioc left why = ⊥
  Unsettled gtc left why =
      (0 < left) × NoRoom b.shape.orders (side_of b order.side).sorted.free own_queue why
  Unsettled post_only left why =
      (0 < left) × NoRoom b.shape.orders (side_of b order.side).sorted.free own_queue why

module _ (b : OrderBook) (order : NewOrder) (own : List Cells)
    (backed : Backed (side_of b order.side) (side_of b order.side).sorted.entries own)
    (sorted : Sorted (is_descending order.side) (side_of b order.side).sorted.entries) where
  abbrev Room : Outcome RejectReason (Unit {0}) → Type 0
  Room r =
      ((r ≡ ok tt)
        × HasRoom b.shape.orders (side_of b order.side).sorted.free (own_queue b order own))
      ⊎ ((why : RejectReason) × (r ≡ err why)
          × NoRoom b.shape.orders (side_of b order.side).sorted.free (own_queue b order own) why)

  room_to_rest-Room : Room (room_to_rest b order)
  unfolding room_to_rest LevelIndex.is_full
  room_to_rest-Room =
      let s = side_of b order.side in
      let looked = find-listed s.sorted (is_descending order.side) order.price sorted in
      elim (listed-queue_at s order.price s.sorted.entries own backed) [
        | inl (missing, no_queue) ↦ elim (Bool-cases (length s.sorted.free == 0)) [
          | inl full ↦
              let nothing : length s.sorted.free ≡ 0 = ground (arith, full) in
              rw (room_to_rest, looked, missing, LevelIndex.is_full, full, no_queue)
                (inr (price_level_capacity, refl, (nothing, refl)))
          | inr free ↦
              let some_left : 0 < length s.sorted.free = ground (arith, free) in
              rw (room_to_rest, looked, missing, LevelIndex.is_full, free, no_queue)
                (inl (refl, some_left))
        ]
        | inr (i, l, cells, found, queue, there, counted) ↦
            elim (Bool-cases (l.len == b.shape.orders)) [
              | inl full ↦
                  let all : length cells ≡ b.shape.orders = ground (arith, full, counted) in
                  rw (room_to_rest, looked, found, there, full, queue)
                    (inr (price_level_order_capacity, refl, (all, refl)))
              | inr free ↦
                  let fewer : length cells ≢ b.shape.orders =
                    λ e. ground (arith, free, counted, e) in
                  rw (room_to_rest, looked, found, there, free, queue) (inl (refl, fewer))
            ]
      ]

  abbrev pub Decided : TimeInForce → ℕ → Outcome RejectReason (ℕ × ℕ) → Type 0
  Decided tif left r =
      ((resting : ℕ) × (discarded : ℕ) × (r ≡ ok (resting, discarded))
        × Settled b order own tif left resting discarded)
      ⊎ ((why : RejectReason) × (r ≡ err why) × Unsettled b order own tif left why)

  abbrev rested : ℕ → Outcome RejectReason (ℕ × ℕ)
  rested left = if left == 0 then ok (left, 0) else room_to_rest b order >> ok (left, 0)

  rested-Decided : (left : ℕ) → Decided gtc left (rested left)
  rested-Decided left = elim (Bool-cases (left == 0)) [
    | inl done ↦
        let nothing : left ≡ 0 = ground (arith, done) in
        rw done (inl (left, 0, refl, (refl, refl, inl nothing)))
    | inr more ↦
        let some_left : 0 < left = ground (arith, more) in
        elim room_to_rest-Room [
          | inl (room, has) ↦ rw (more, room) (inl (left, 0, refl, (refl, refl, inr has)))
          | inr (why, full, no_room) ↦ rw (more, full) (inr (why, refl, (some_left, no_room)))
        ]
  ]

  pub settle_remainder-Decided :
      (tif : TimeInForce) (left : ℕ) → Decided tif left (settle_remainder b order tif left)
  unfolding settle_remainder
  settle_remainder-Decided fok left = elim (Bool-cases (left == 0)) [
    | inl done ↦
        let nothing : left ≡ 0 = ground (arith, done) in
        rw (settle_remainder, done) (inl (left, 0, refl, (nothing, nothing, refl)))
    | inr more ↦
        let some_left : 0 < left = ground (arith, more) in
        rw (settle_remainder, more) (inr (insufficient_liquidity, refl, (some_left, refl)))
  ]
  settle_remainder-Decided ioc left = inl (0, left, refl, (refl, refl))
  settle_remainder-Decided gtc left = rested-Decided left
  settle_remainder-Decided post_only left = rested-Decided left

  pub Settled-sum :
      (tif : TimeInForce) (left resting discarded : ℕ)
      → Settled b order own tif left resting discarded
      → resting + discarded ≡ left
  Settled-sum fok left resting discarded h = omega (arith, h.0, h.1, h.2)
  Settled-sum ioc left resting discarded h = omega (arith, h.0, h.1)
  Settled-sum gtc left resting discarded h = omega (arith, h.0, h.1)
  Settled-sum post_only left resting discarded h = omega (arith, h.0, h.1)
