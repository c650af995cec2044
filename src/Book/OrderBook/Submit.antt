-- ===== src/Book/OrderBook/Submit.antt =====
-- `submit`: a single fill at the best maker, or a plan that is built and then applied.
pub mod Refusal
pub mod Take
pub mod Single
pub mod PostOnly
use deterministic_exchange_r.Prelude.{
  ℕ, ◌+◌, ◌-◌, List, [], ◌∷◌, Bool, true, false, not, Option, none, some, ltb, leb, ◌==◌,
  if◌then◌else◌, get_elem?, set, length,
}
use deterministic_exchange_r.Prelude.Outcome.{Outcome, ok, err, panic, unwrap}
use deterministic_exchange_r.Prelude.Effect.{Effect, ◌>>=◌, ◌>>◌, return, lift, get, put, guard}
use deterministic_exchange_r.Types.{
  OrderId, PriceTicks, Quantity, Side, NewOrder, RejectReason, OrderState, accepted,
  partially_filled, filled, MatchSummary, ExecutionReport,
}
use deterministic_exchange_r.Types.Reports
use deterministic_exchange_r.Types.Reports.{ReportBuffer}
use deterministic_exchange_r.Book.Level.{
  LevelCall, live_at, live, RestingOrder, PriceLevel, get_live, reduce_quantity,
}
use deterministic_exchange_r.Book.OrderIndex.{OrderLocation}
use deterministic_exchange_r.Book.OrderBook.{
  OrderBook, BookSide, BookCall, side_of, with_side, occupied_level, level_at, resting_at, on_level,
  expect, remove_filled_order, rest,
}
use deterministic_exchange_r.Book.OrderBook.Plan.{
  MatchPlan, FillEntry, crosses, validate_order, build_plan,
}

-- The book and the caller's report buffer.
abbrev pub Desk : Type 0
Desk = OrderBook × ReportBuffer

abbrev pub DeskCall : Type 0 → Type 0
DeskCall A = Effect Desk RejectReason A

abbrev pub on_book : {A : Type 0} → BookCall A → DeskCall A
on_book call d = let (result, b) = call d.0 in (result, (b, d.1))

abbrev pub report_of : NewOrder → OrderId → PriceTicks → Quantity → ExecutionReport
report_of order maker price quantity = record {
  maker_order_id = maker;
  taker_order_id = order.order_id;
  instrument_id = order.instrument_id;
  price = price;
  quantity = quantity;
  sequence = order.sequence;
}

abbrev pub push_report : ExecutionReport → DeskCall (Unit {0})
push_report report d = let (result, reports) = Reports.push report d.1 in (result, (d.0, reports))

-- the maker of the best price, if that crosses, and where it is: price, level, slot
abbrev pub best_maker :
    Side → PriceTicks → BookSide → Outcome RejectReason (Option (PriceTicks × ℕ × ℕ × RestingOrder))
best_maker side price s = elim s.sorted.entries [
  | [] ↦ ok none
  | e ∷ _ ↦ if not (crosses side e.0 price) then ok none else elim (get_elem? s.slots e.1) [
    | none ↦ panic
    | some none ↦ ok none
    | some (some level) ↦ elim (get_live level level.head) [
      | none ↦ ok none
      | some maker ↦ ok (some (e.0, e.1, level.head, maker))
    ]
  ]
]

abbrev pub single_summary : NewOrder → MatchSummary
single_summary order = record {
  state = filled;
  filled_quantity = order.quantity;
  resting_quantity = 0;
  discarded_quantity = 0;
  report_count = 1;
}

-- `maker.quantity.0 -= ..` and `level.aggregate_quantity -= ..`; a difference below 0 is a panic, which
-- leaves the first of the two written if it is the second.
unfoldable pub take_from : ℕ → Quantity → LevelCall (Unit {0})
take_from slot quantity l = elim (live_at l.slots slot) [
  | none ↦ (panic, l)
  | some maker ↦
      if ltb maker.quantity quantity
      then (panic, l)
      else (let reduced = record l {
        slots = set l.slots slot (live (record maker { quantity = maker.quantity - quantity }));
      } in
          if leb quantity l.aggregate_quantity
          then (ok tt, record reduced { aggregate_quantity = l.aggregate_quantity - quantity })
          else (panic, reduced))
]

-- What a single fill writes to the book: the maker goes, or is reduced.
unfoldable pub fill_maker : Side → ℕ → ℕ → RestingOrder → Quantity → BookCall (Unit {0})
fill_maker side level slot maker quantity =
    if maker.quantity == quantity
    then remove_filled_order (record { side = side; level_index = level; slot = slot }) maker.id
        maker.index_slot
    else on_level side level (take_from slot quantity)

unfoldable pub try_single_fill : NewOrder → Side → DeskCall (Option MatchSummary)
unfolding fill_maker
try_single_fill order maker_side d =
    elim (best_maker order.side order.price (side_of d.0 maker_side)) [
      | panic ↦ (panic, d)
      | err why ↦ (err why, d)
      | ok none ↦ (ok none, d)
      | ok (some (price, level, slot, maker)) ↦
          if ltb maker.quantity order.quantity
          then (ok none, d)
          else (do
            push_report (report_of order maker.id price order.quantity)
            on_book (fill_maker maker_side level slot maker order.quantity)
            return (some (single_summary order)))
              d
    ]

-- `push(..).expect(..)`
abbrev pub push_planned : ExecutionReport → DeskCall (Unit {0})
push_planned report d =
    let (result, d') = push_report report d in
    (elim result [ ok _ ↦ ok tt | err _ ↦ panic | panic ↦ panic ], d')

unfoldable pub apply_fill : NewOrder → Side → FillEntry → DeskCall (Unit {0})
apply_fill order maker_side fill = do
  d ← get
  level ← lift (occupied_level (side_of d.0 maker_side) fill.level_index)
  maker ← lift (unwrap (get_live level fill.slot))
  push_planned (report_of order fill.order_id fill.price fill.quantity)
  if maker.quantity == fill.quantity
      then on_book (
          remove_filled_order
            (record { side = maker_side; level_index = fill.level_index; slot = fill.slot })
            fill.order_id maker.index_slot)
      else (do
        _ ← on_book (
            expect (on_level maker_side fill.level_index (reduce_quantity fill.slot fill.quantity)))
        return tt)

unfoldable pub apply_fills : NewOrder → Side → List FillEntry → DeskCall (Unit {0})
unfolding apply_fill
apply_fills order maker_side [] = return tt
apply_fills order maker_side (fill ∷ fills) =
    apply_fill order maker_side fill >> apply_fills order maker_side fills

unfoldable pub apply_plan : NewOrder → MatchPlan → DeskCall (Unit {0})
unfolding apply_fills
apply_plan order plan = do
  apply_fills order plan.maker_side plan.fills
  if plan.resting_quantity == 0 then return tt else on_book (rest order plan.resting_quantity)

abbrev pub state_of : ℕ → ℕ → OrderState
state_of quantity filled_quantity =
    if filled_quantity == quantity
    then filled
    else if filled_quantity == 0
    then accepted
    else partially_filled

-- The subtractions stay above 0: a plan never fills, rests and discards more than the order.
abbrev pub summary_of : NewOrder → MatchPlan → ℕ → MatchSummary
summary_of order plan report_count =
    let done = order.quantity - plan.resting_quantity - plan.discarded in
    record {
      state = state_of order.quantity done;
      filled_quantity = done;
      resting_quantity = plan.resting_quantity;
      discarded_quantity = plan.discarded;
      report_count = report_count;
    }

unfoldable pub submit_plan : NewOrder → Side → DeskCall MatchSummary
unfolding build_plan apply_plan
submit_plan order maker_side = do
  d ← get
  plan ←
      lift (build_plan (length d.1.entries) d.0 order maker_side (Reports.remaining_capacity d.1))
  apply_plan order plan
  d' ← get
  return (summary_of order plan (d'.1.len - d.1.len))

unfoldable pub submit : NewOrder → DeskCall MatchSummary
submit order = do
  d ← get
  maker_side ← lift (validate_order d.0 order)
  single ← try_single_fill order maker_side
  elim single [ some summary ↦ return summary | none ↦ submit_plan order maker_side ]
