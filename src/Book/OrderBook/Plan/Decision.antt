-- ===== src/Book/OrderBook/Plan/Decision.antt =====
-- `build_plan`, whole: what it plans, and exactly when it refuses.
use deterministic_exchange_r.Prelude.{
  ℕ, ◌+◌, ◌-◌, ◌≤◌, ◌<◌, ◌≡◌, refl, ◌⊎◌, inl, inr, List, ltb, length, min, Bool-cases, arith,
}
use deterministic_exchange_r.Prelude.Outcome.{ok, err}
use deterministic_exchange_r.Types.{NewOrder, RejectReason, report_capacity}
use deterministic_exchange_r.Book.Level.Segment.{Cells}
use deterministic_exchange_r.Book.LevelIndex.Sorted.{Sorted}
use deterministic_exchange_r.Book.OrderBook.{OrderBook, side_of, opposite, is_descending}
use deterministic_exchange_r.Book.OrderBook.Plan.{MatchPlan, build_plan}
use deterministic_exchange_r.Book.OrderBook.Plan.Priority.{
  Backed, Maker, makers, accepted, allot, traded, supply, traded-allot,
}
use deterministic_exchange_r.Book.OrderBook.Plan.Fifo.{walk_levels-by_priority}
use deterministic_exchange_r.Book.OrderBook.Plan.Conservation.{WithinLimit, allot-accepted}
use deterministic_exchange_r.Book.OrderBook.Plan.Remainder.{
  Settled, Unsettled, Settled-sum, settle_remainder-Decided,
}

abbrev pub best_makers : OrderBook → NewOrder → List Cells → List Maker
best_makers b order queues =
    accepted order.side order.price (makers (side_of b (opposite order.side)).sorted.entries queues)

-- What a plan says, of an order that meets the makers `ms` with `own` on its side: its fills are what the
-- makers give in turn, within the limit price and the room for reports; with what rests and what is
-- discarded, by the time in force, they make up the order's quantity.
pub record Sound (b : OrderBook) (order : NewOrder) (own : List Cells) (ms : List Maker)
    (capacity : ℕ) (plan : MatchPlan) : Type 0 where
  pub side : plan.maker_side ≡ opposite order.side
  pub priority : plan.fills ≡ allot order.quantity ms
  pub conserved : traded plan.fills + plan.resting_quantity + plan.discarded ≡ order.quantity
  pub room : length plan.fills ≤ capacity
  pub limit : WithinLimit order.side order.price plan.fills
  pub settled :
      Settled b order own order.time_in_force
        (order.quantity - supply ms)
        plan.resting_quantity
        plan.discarded

-- The reasons for a refusal: more fills than the room for reports, or a remainder that cannot be settled.
abbrev pub Refused : OrderBook → NewOrder → List Cells → List Maker → ℕ → RejectReason → Type 0
Refused b order own ms capacity why =
    ((capacity < length (allot order.quantity ms)) × (why ≡ report_capacity))
    ⊎ Unsettled b order own order.time_in_force (order.quantity - supply ms) why

-- When the levels of both sides hold their queues and their entries are sorted, `build_plan` does not
-- panic. It gives a plan that follows price-time priority within the limit price and the room for reports,
-- with fills, rest and discard making up the quantity; or it refuses, which it does only when the fills
-- are too many, a fill-or-kill order is not filled, or the remainder to rest has no room.
pub build_plan-Sound :
    (reports_max room : ℕ) (b : OrderBook) (order : NewOrder) (others own : List Cells)
    → Backed
        (side_of b (opposite order.side))
        (side_of b (opposite order.side)).sorted.entries
        others
    → Sorted (is_descending (opposite order.side)) (side_of b (opposite order.side)).sorted.entries
    → Backed (side_of b order.side) (side_of b order.side).sorted.entries own
    → Sorted (is_descending order.side) (side_of b order.side).sorted.entries
    → ((plan : MatchPlan) × (build_plan reports_max b order (opposite order.side) room ≡ ok plan)
        × Sound b order own (best_makers b order others) (min room reports_max) plan)
      ⊎ ((why : RejectReason) × (build_plan reports_max b order (opposite order.side) room
            ≡ err why)
          × Refused b order own (best_makers b order others) (min room reports_max) why)
unfolding build_plan
build_plan-Sound reports_max room b order others own backed sorted backed_own sorted_own =
    let s = side_of b (opposite order.side) in
    let capacity = min room reports_max in
    let ms = best_makers b order others in
    let fills = allot order.quantity ms in
    let left = order.quantity - supply ms in
    let walk =
      walk_levels-by_priority s order.side order.price capacity order.quantity s.sorted.entries
        others backed sorted in
    elim (Bool-cases (ltb capacity (length fills))) [
      | inl over ↦
          let too_many : capacity < length fills = ground (arith, over) in
          rw (build_plan, walk, over) (inr (report_capacity, refl, inl (too_many, refl)))
      | inr within ↦
          let fits : length fills ≤ capacity = ground (arith, within) in
          elim (settle_remainder-Decided b order own backed_own sorted_own order.time_in_force
            left) [
              | inr (why, refused, cause) ↦
                  rw (build_plan, walk, within, refused) (inr (why, refl, inr cause))
              | inl (resting, discarded, done, settled) ↦
                  let sum =
                    Settled-sum b order own backed_own sorted_own order.time_in_force left resting
                      discarded settled in
                  rw (build_plan, walk, within, done)
                    (inl (
                      record {
                        fills = fills;
                        maker_side = opposite order.side;
                        resting_quantity = resting;
                        discarded = discarded;
                      },
                      refl,
                      record {
                        side = refl;
                        priority = refl;
                        conserved = omega (arith, sum, traded-allot order.quantity ms);
                        room = fits;
                        limit =
                            allot-accepted order.side order.price order.quantity
                              (makers s.sorted.entries others);
                        settled = settled;
                      },
                    ))
            ]
    ]
