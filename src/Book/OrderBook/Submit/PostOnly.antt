-- ===== src/Book/OrderBook/Submit/PostOnly.antt =====
-- A post-only order that is validated takes nothing from the book.
use deterministic_exchange_r.Prelude.{
  ℕ, ◌≡◌, refl, inl, inr, List, [], ◌∷◌, Bool, true, false, not, none, if◌then◌else◌, ◌==◌,
  Bool-cases,
}
use deterministic_exchange_r.Prelude.Int.{pos, ltb_ℤ}
use deterministic_exchange_r.Prelude.Outcome.{ok, guard_then}
use deterministic_exchange_r.Types.{PriceTicks, Side, NewOrder, post_only}
use deterministic_exchange_r.Book.LevelIndex.{Entry}
use deterministic_exchange_r.Book.OrderBook.{OrderBook, BookSide, side_of, opposite, contains_order}
use deterministic_exchange_r.Book.OrderBook.Plan.{
  Walk, best_crosses, is_post_only, validate_order, walk_levels,
}
use deterministic_exchange_r.Book.OrderBook.Submit.{Desk, best_maker, try_single_fill}

walk_levels-apart :
    (s : BookSide) (side : Side) (price : PriceTicks) (capacity : ℕ) (es : List Entry) (w : Walk)
    → best_crosses side price es ≡ false
    → walk_levels s side price capacity es w ≡ ok w
unfolding walk_levels
walk_levels-apart s side price capacity [] w apart = refl
walk_levels-apart s side price capacity (e ∷ es) w apart = elim (Bool-cases (w.remaining == 0)) [
  | inl done ↦ rw (walk_levels, done) refl
  | inr more ↦ rw (walk_levels, more, apart) refl
]

best_maker-apart :
    (s : BookSide) (side : Side) (price : PriceTicks) (es : List Entry)
    → s.sorted.entries ≡ es
    → best_crosses side price es ≡ false
    → best_maker side price s ≡ ok none
best_maker-apart s side price [] listed apart = rw (best_maker, listed) refl
best_maker-apart s side price (e ∷ es) listed apart = rw (best_maker, listed, apart) refl

try_single_fill-apart :
    (d : Desk) (order : NewOrder) (side : Side)
    → best_crosses order.side order.price (side_of d.0 side).sorted.entries ≡ false
    → try_single_fill order side d ≡ (ok none, d)
unfolding try_single_fill
try_single_fill-apart d order side apart =
    let s = side_of d.0 side in
    let nobody = best_maker-apart s order.side order.price s.sorted.entries refl apart in
    rw (try_single_fill, nobody) refl

not-true : (c : Bool) → not c ≡ true → c ≡ false
not-true true h = cc
not-true false h = refl

validate_order-apart :
    (b : OrderBook) (order : NewOrder) (side : Side)
    → validate_order b order ≡ ok side
    → order.time_in_force ≡ post_only
    → best_crosses order.side order.price (side_of b side).sorted.entries ≡ false
unfolding validate_order contains_order
validate_order-apart b order side valid only =
    let (_, h1) = guard_then (order.instrument_id == b.instrument) _ _ valid in
    let (_, h2) = guard_then (ltb_ℤ (pos 0) order.price) _ _ h1 in
    let (_, h3) = guard_then (not (order.quantity == 0)) _ _ h2 in
    let (_, h4) = guard_then (not (contains_order b order.order_id)) _ _ h3 in
    let best =
      best_crosses order.side order.price (side_of b (opposite order.side)).sorted.entries in
    let (passed, h5) =
      guard_then (not (if is_post_only order.time_in_force then best else false)) _ _ h4 in
    let same : opposite order.side ≡ side = cc in
    let passed' = rw only at passed in rw (← same) (not-true best passed')

-- A post-only order that `validate_order` accepts trades nothing: the single fill is not taken, and the
-- walk over the makers, from any point, adds no fill.
pub validate_order-post_only :
    (d : Desk) (order : NewOrder) (side : Side)
    → validate_order d.0 order ≡ ok side
    → order.time_in_force ≡ post_only
    → (try_single_fill order side d ≡ (ok none, d))
      × ((capacity : ℕ) (w : Walk)
          → walk_levels
              (side_of d.0 side)
              order.side
              order.price
              capacity
              (side_of d.0 side).sorted.entries
              w
            ≡ ok w)
validate_order-post_only d order side valid only =
    let apart = validate_order-apart d.0 order side valid only in
    (
      try_single_fill-apart d order side apart,
      λ capacity w.
          walk_levels-apart (side_of d.0 side) order.side order.price capacity
            (side_of d.0 side).sorted.entries w apart,
    )
