-- ===== src/Book/OrderBook/Submit/Single.antt =====
-- `try_single_fill` against the plan that it saves: the same answer, the same book, the same report.
use deterministic_exchange_r.Prelude.{
  ℕ, suc, ◌+◌, ◌-◌, ◌≤◌, ◌<◌, ◌≡◌, refl, sym, ap, ◌∙◌, inl, inr, List, [], ◌∷◌, true, false, Option,
  some, if◌then◌else◌, ltb, leb, ◌==◌, min, Bool-cases, Option-cases, get_elem?, set, length, arith,
  get_elem?-lt, get_elem?-ge, get_elem?-some_lt,
}
use deterministic_exchange_r.Prelude.Outcome
use deterministic_exchange_r.Prelude.Outcome.{Outcome, ok, err, panic, unwrap, outcome-cases}
use deterministic_exchange_r.Prelude.Effect.{◌>>=◌, return}
use deterministic_exchange_r.Types.{Side, NewOrder, RejectReason, report_capacity, MatchSummary}
use deterministic_exchange_r.Types.{ExecutionReport}
use deterministic_exchange_r.Types.Reports
use deterministic_exchange_r.Types.Reports.{ReportBuffer}
use deterministic_exchange_r.Book.Level.{
  PriceLevel, RestingOrder, live_at, get_live, reduce_quantity, nil,
}
use deterministic_exchange_r.Book.LevelIndex.{Entry}
use deterministic_exchange_r.Book.OrderIndex.{OrderLocation}
use deterministic_exchange_r.Book.OrderBook.{
  OrderBook, side_of, on_level, expect, remove_filled_order,
}
use deterministic_exchange_r.Book.OrderBook.Plan.{
  MatchPlan, FillEntry, push_fill, walk_level, walk_levels, crosses, build_plan,
}
use deterministic_exchange_r.Book.OrderBook.Submit.{
  Desk, DeskCall, on_book, report_of, push_report, best_maker, single_summary, fill_maker,
  take_from, try_single_fill, apply_fill, apply_fills, apply_plan, summary_of, submit_plan,
  push_planned,
}
use deterministic_exchange_r.Book.OrderBook.Plan.Nothing.{
  walk_level-nothing, walk_levels-nothing, settle_remainder-nothing,
}
use deterministic_exchange_r.Book.OrderBook.Submit.Take.{
  returned, returned_once, take_from_expected,
}

-- a summary that is there
abbrev pub expected :
    Outcome RejectReason (Option MatchSummary) × Desk → Outcome RejectReason MatchSummary × Desk
expected r = (Outcome.◌>>=◌ r.0 unwrap, r.1)

-- The best maker covers the order: `e` lists its level `l`, and it is the first there.
module _ (b : OrderBook) (order : NewOrder) (side : Side) (e : Entry) (es : List Entry)
    (l : PriceLevel) (maker : RestingOrder) (listed : (side_of b side).sorted.entries ≡ e ∷ es)
    (there : get_elem? (side_of b side).slots e.1 ≡ some (some l))
    (first : get_live l l.head ≡ some maker) (linked_on : (l.head == nil) ≡ false)
    (meets : crosses order.side e.0 order.price ≡ true) (covers : order.quantity ≤ maker.quantity)
    (sized : (order.quantity == 0) ≡ false) where
  abbrev the_fill : FillEntry
  the_fill = record {
    level_index = e.1;
    slot = l.head;
    order_id = maker.id;
    price = e.0;
    quantity = order.quantity;
  }

  abbrev the_plan : MatchPlan
  the_plan = record {
    fills = the_fill ∷ [];
    maker_side = side;
    resting_quantity = 0;
    discarded = 0;
  }

  walk_one :
      (capacity fuel : ℕ)
      → walk_level
          (suc (suc fuel))
          capacity
          e.1
          e.0
          l.slots
          l.head
          (record { fills = []; remaining = order.quantity })
        ≡ (if leb capacity 0
            then err report_capacity
            else ok (record { fills = the_fill ∷ []; remaining = 0 }))
  unfolding walk_level get_live push_fill
  walk_one capacity fuel =
      let all : min order.quantity maker.quantity ≡ order.quantity = omega (arith, covers) in
      let rest : order.quantity - order.quantity ≡ 0 = omega arith in
      let first' : live_at l.slots l.head ≡ some maker = first in
      elim (Bool-cases (leb capacity 0)) [
        | inl full ↦ rw (walk_level, linked_on, sized, first', push_fill, full) refl
        | inr free ↦
            rw (walk_level, linked_on, sized, first', push_fill, free, all, rest)
              (walk_level-nothing fuel capacity e.1 e.0 l.slots maker.next (the_fill ∷ []))
      ]

  slots-suc : (n : ℕ) × (length l.slots + 1 ≡ suc (suc n))
  unfolding get_live
  slots-suc = elim (Option-cases (get_elem? l.slots l.head)) [
    | inl past ↦
        let first' : live_at l.slots l.head ≡ some maker = first in
        let r = rw (live_at, past) at first' in cc
    | inr (x, at) ↦
        let inside = get_elem?-some_lt l.slots l.head at in
        (length l.slots - 1, omega (arith, inside))
  ]

  walk_levels-one :
      (capacity : ℕ)
      → walk_levels
          (side_of b side)
          order.side
          order.price
          capacity
          (e ∷ es)
          (record { fills = []; remaining = order.quantity })
        ≡ (if leb capacity 0
            then err report_capacity
            else ok (record { fills = the_fill ∷ []; remaining = 0 }))
  unfolding walk_levels
  walk_levels-one capacity =
      let (fuel, enough) = slots-suc in
      rw (walk_levels, sized, meets, there, enough, walk_one capacity fuel)
        (elim (Bool-cases (leb capacity 0)) [
          | inl full ↦ rw full refl
          | inr free ↦ rw free (
              walk_levels-nothing (side_of b side) order.side order.price capacity es
                (the_fill ∷ []))
        ])

  build_plan-one :
      (reports_max room : ℕ)
      → room ≤ reports_max
      → build_plan reports_max b order side room
        ≡ (if leb room 0 then err report_capacity else ok the_plan)
  unfolding build_plan
  build_plan-one reports_max room within =
      let same : min room reports_max ≡ room = omega (arith, within) in
      rw (build_plan, listed, same, walk_levels-one room)
        (elim (Bool-cases (leb room 0)) [
          | inl full ↦ rw full refl
          | inr free ↦ rw (free, settle_remainder-nothing b order order.time_in_force) refl
        ])

  abbrev the_place : OrderLocation
  the_place = record { side = side; level_index = e.1; slot = l.head }

  abbrev write_maker : DeskCall (Unit {0})
  write_maker =
      if maker.quantity == order.quantity
      then on_book (remove_filled_order the_place maker.id maker.index_slot)
      else on_book (expect (on_level side e.1 (reduce_quantity l.head order.quantity))) >>= λ _.
          return tt

  write_maker-fill_maker :
      (d : Desk) → write_maker d ≡ on_book (fill_maker side e.1 l.head maker order.quantity) d
  unfolding fill_maker
  write_maker-fill_maker d = elim (Bool-cases (maker.quantity == order.quantity)) [
    | inl whole ↦ rw (fill_maker, whole) refl
    | inr part ↦
        let same = take_from_expected side e.1 l.head order.quantity d.0 in
        rw (fill_maker, part, same)
          (returned_once (on_book (on_level side e.1 (take_from l.head order.quantity)) d))
  ]

  abbrev the_report : ExecutionReport
  the_report = report_of order maker.id e.0 order.quantity

  -- the buffer with the report of the fill, at a position that is there
  abbrev reported : ReportBuffer → ReportBuffer
  reported reports = record {
    entries = set reports.entries reports.len the_report;
    len = reports.len + 1;
  }

  single_summary_lem : (n : ℕ) → summary_of order the_plan (n + 1 - n) ≡ single_summary order
  single_summary_lem n =
      let all : order.quantity - 0 - 0 ≡ order.quantity = omega arith in
      let one : n + 1 - n ≡ 1 = omega arith in
      let self : (order.quantity == order.quantity) ≡ true = ground arith in
      rw (all, one, self) refl

  module _ (reports : ReportBuffer) (old : ExecutionReport)
      (room : get_elem? reports.entries reports.len ≡ some old) where
    apply_plan-one :
        apply_plan order the_plan (b, reports)
        ≡ on_book (fill_maker side e.1 l.head maker order.quantity) (b, reported reports)
    unfolding apply_plan apply_fills apply_fill Reports.push
    apply_plan-one =
        let same = write_maker-fill_maker (b, reported reports) in
        rw
          (
            apply_plan, apply_fills, apply_fill, there, first, push_planned, push_report,
            Reports.push, room,
          )
          (returned (write_maker (b, reported reports)) ∙ same)

    abbrev finish :
        Outcome RejectReason (Unit {0}) × OrderBook → Outcome RejectReason MatchSummary × Desk
    finish r = (Outcome.◌>>=◌ r.0 (λ _. ok (single_summary order)), (r.1, reported reports))

    submit_plan-room :
        0 < length reports.entries - reports.len
        → submit_plan order side (b, reports)
          ≡ finish (fill_maker side e.1 l.head maker order.quantity b)
    unfolding submit_plan Reports.remaining_capacity
    submit_plan-room free =
        let planned =
          build_plan-one (length reports.entries) (length reports.entries - reports.len)
            (omega arith) in
        let some_room : leb (length reports.entries - reports.len) 0 ≡ false =
          ground (arith, free) in
        rw (submit_plan, Reports.remaining_capacity, planned, some_room, apply_plan-one)
          (elim (outcome-cases (fill_maker side e.1 l.head maker order.quantity b).0) [
            | inl (_, done) ↦
                let summary = single_summary_lem reports.len in
                rw done (
                  ap
                    (λ k. (
                      ok k,
                      ((fill_maker side e.1 l.head maker order.quantity b).1, reported reports),
                    ))
                    summary)
            | inr (inl (_, failed)) ↦ rw failed refl
            | inr (inr stuck) ↦ rw stuck refl
          ])

    try_single_fill-room :
        expected (try_single_fill order side (b, reports))
        ≡ finish (fill_maker side e.1 l.head maker order.quantity b)
    unfolding try_single_fill Reports.push
    try_single_fill-room =
        let covered : ltb maker.quantity order.quantity ≡ false = ground (arith, covers) in
        rw
          (
            try_single_fill, best_maker, listed, there, first, meets, covered, push_report,
            Reports.push, room,
          )
          (elim (outcome-cases (fill_maker side e.1 l.head maker order.quantity b).0) [
            | inl (_, done) ↦ rw done refl
            | inr (inl (_, failed)) ↦ rw failed refl
            | inr (inr stuck) ↦ rw stuck refl
          ])

  -- When the best maker covers the order, `try_single_fill` gives what `submit_plan` gives: the
  -- answer, the book and the reports; also when the report buffer is full.
  pub try_single_fill-submit_plan :
      (reports : ReportBuffer)
      → expected (try_single_fill order side (b, reports)) ≡ submit_plan order side (b, reports)
  unfolding try_single_fill submit_plan Reports.push Reports.remaining_capacity
  try_single_fill-submit_plan reports =
      let room = length reports.entries - reports.len in
      let planned = build_plan-one (length reports.entries) room (omega arith) in
      let covered : ltb maker.quantity order.quantity ≡ false = ground (arith, covers) in
      elim (Bool-cases (leb room 0)) [
        | inl full ↦
            let past = get_elem?-ge reports.entries reports.len (ground (arith, full)) in
            rw
              (
                submit_plan, Reports.remaining_capacity, planned, full, try_single_fill, best_maker,
                listed, there, first, meets, covered, push_report, Reports.push, past,
              )
              refl
        | inr free ↦
            let (old, at) = get_elem?-lt reports.entries reports.len (ground (arith, free)) in
            try_single_fill-room reports old at
            ∙ sym (submit_plan-room reports old at (ground (arith, free)))
      ]
