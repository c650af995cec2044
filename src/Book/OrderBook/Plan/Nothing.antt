-- ===== src/Book/OrderBook/Plan/Nothing.antt =====
-- With nothing left to trade the walk stops, and nothing is left over.
use deterministic_exchange_r.Prelude.{ℕ, suc, ◌≡◌, refl, inl, inr, List, [], ◌∷◌, ◌==◌, Bool-cases}
use deterministic_exchange_r.Prelude.Outcome.{ok}
use deterministic_exchange_r.Types.{
  PriceTicks, Side, TimeInForce, gtc, ioc, fok, post_only, NewOrder,
}
use deterministic_exchange_r.Book.Level.{OrderSlot, nil}
use deterministic_exchange_r.Book.LevelIndex.{Entry}
use deterministic_exchange_r.Book.OrderBook.{OrderBook, BookSide}
use deterministic_exchange_r.Book.OrderBook.Plan.{
  FillEntry, walk_level, walk_levels, settle_remainder,
}

pub walk_level-nothing :
    (fuel capacity level : ℕ) (price : PriceTicks) (slots : List OrderSlot) (cursor : ℕ)
    (fills : List FillEntry)
    → walk_level
        (suc fuel)
        capacity
        level
        price
        slots
        cursor
        (record { fills = fills; remaining = 0 })
      ≡ ok (record { fills = fills; remaining = 0 })
unfolding walk_level
walk_level-nothing fuel capacity level price slots cursor fills =
    elim (Bool-cases (cursor == nil)) [
      | inl stop ↦ rw (walk_level, stop) refl
      | inr on ↦ rw (walk_level, on) refl
    ]

pub walk_levels-nothing :
    (s : BookSide) (side : Side) (price : PriceTicks) (capacity : ℕ) (es : List Entry)
    (fills : List FillEntry)
    → walk_levels s side price capacity es (record { fills = fills; remaining = 0 })
      ≡ ok (record { fills = fills; remaining = 0 })
unfolding walk_levels
walk_levels-nothing s side price capacity [] fills = refl
walk_levels-nothing s side price capacity (e ∷ es) fills = refl

pub settle_remainder-nothing :
    (b : OrderBook) (order : NewOrder) (tif : TimeInForce)
    → settle_remainder b order tif 0 ≡ ok (0, 0)
unfolding settle_remainder
settle_remainder-nothing b order fok = refl
settle_remainder-nothing b order ioc = refl
settle_remainder-nothing b order gtc = refl
settle_remainder-nothing b order post_only = refl
