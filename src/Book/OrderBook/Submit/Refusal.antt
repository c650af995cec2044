-- ===== src/Book/OrderBook/Submit/Refusal.antt =====
-- A refused submission leaves the book and the report buffer as they were.
use deterministic_exchange_r.Prelude.{
  ℕ, ◌-◌, ◌≡◌, refl, ◌⊎◌, inl, inr, List, [], ◌∷◌, Option, none, some, if◌then◌else◌, ltb, ◌==◌,
  Bool-cases, Option-cases, get_elem?, length, arith,
}
use deterministic_exchange_r.Prelude.Outcome.{Outcome, ok, err, panic, unwrap, outcome-cases}
use deterministic_exchange_r.Prelude.Effect.{◌>>=◌, ◌>>◌, return, lift, get}
use deterministic_exchange_r.Prelude.Refusal.{
  NoError, KeepsOnError, NoError-if, NoError-bind, NoError-keeps, keeps-bind_lift,
}
use deterministic_exchange_r.Types.{
  PriceTicks, Quantity, Side, NewOrder, RejectReason, MatchSummary, ExecutionReport,
}
use deterministic_exchange_r.Types.Reports
use deterministic_exchange_r.Book.Level.{PriceLevel, RestingOrder, get_live, reduce_quantity}
use deterministic_exchange_r.Book.OrderIndex.{OrderLocation}
use deterministic_exchange_r.Book.OrderBook.{
  BookCall, side_of, occupied_level, on_level, expect, remove_filled_order, rest,
}
use deterministic_exchange_r.Book.OrderBook.Errorless.{
  remove_filled_order-NoError, on_level-NoError, reduce_at-NoError, rest-NoError, return-NoError,
  unwrap-NoError, occupied_level-no_error,
}
use deterministic_exchange_r.Book.OrderBook.Plan.{MatchPlan, FillEntry, validate_order, build_plan}
use deterministic_exchange_r.Book.OrderBook.Submit.{
  Desk, DeskCall, on_book, report_of, push_report, best_maker, single_summary, fill_maker,
  take_from, try_single_fill, push_planned, apply_fill, apply_fills, apply_plan, summary_of,
  submit_plan, submit,
}

on_book-NoError : {A : Type 0} (call : BookCall A) → NoError call → NoError (on_book call)
on_book-NoError call sure d why refused = sure d.0 why refused

take_from-NoError : (slot : ℕ) (quantity : Quantity) → NoError (take_from slot quantity)
unfolding take_from
take_from-NoError slot quantity l why refused = ground arith

pub fill_maker-NoError :
    (side : Side) (level slot : ℕ) (maker : RestingOrder) (quantity : Quantity)
    → NoError (fill_maker side level slot maker quantity)
unfolding fill_maker
fill_maker-NoError side level slot maker quantity =
    let p : OrderLocation = record { side = side; level_index = level; slot = slot } in
    NoError-if (maker.quantity == quantity) (remove_filled_order p maker.id maker.index_slot)
      (on_level side level (take_from slot quantity))
      (remove_filled_order-NoError p maker.id maker.index_slot)
      (on_level-NoError side level (take_from slot quantity) (take_from-NoError slot quantity))

push_report-keeps : (report : ExecutionReport) (d : Desk) → KeepsOnError (push_report report) d
unfolding Reports.push
push_report-keeps report d why refused = elim (Option-cases (get_elem? d.1.entries d.1.len)) [
  | inl full ↦ rw (push_report, Reports.push, full) refl
  | inr (old, room) ↦ let r = rw (push_report, Reports.push, room) at refused in cc
]

push_planned-NoError : (report : ExecutionReport) → NoError (push_planned report)
push_planned-NoError report d why refused = elim (outcome-cases (push_report report d).0) [
  | inl (_, done) ↦ let r = rw (push_planned, done) at refused in cc
  | inr (inl (_, failed)) ↦ let r = rw (push_planned, failed) at refused in cc
  | inr (inr stuck) ↦ let r = rw (push_planned, stuck) at refused in cc
]

module _ (order : NewOrder) (side : Side) (fill : FillEntry) where
  abbrev write_fill : RestingOrder → DeskCall (Unit {0})
  write_fill maker =
      if maker.quantity == fill.quantity
      then on_book (
          remove_filled_order
            (record { side = side; level_index = fill.level_index; slot = fill.slot }) fill.order_id
            maker.index_slot)
      else on_book
          (expect (on_level side fill.level_index (reduce_quantity fill.slot fill.quantity)))
        >>= λ _. return tt

  abbrev fill_of_maker : RestingOrder → DeskCall (Unit {0})
  fill_of_maker maker =
      push_planned (report_of order fill.order_id fill.price fill.quantity) >> write_fill maker

  abbrev fill_in_level : PriceLevel → DeskCall (Unit {0})
  fill_in_level level = lift (unwrap (get_live level fill.slot)) >>= fill_of_maker

  write_fill-NoError : (maker : RestingOrder) → NoError (write_fill maker)
  write_fill-NoError maker =
      let p : OrderLocation = record {
        side = side;
        level_index = fill.level_index;
        slot = fill.slot;
      } in
      let reduced =
        expect (on_level side fill.level_index (reduce_quantity fill.slot fill.quantity)) in
      NoError-if (maker.quantity == fill.quantity)
        (on_book (remove_filled_order p fill.order_id maker.index_slot))
        (on_book reduced >>= λ _. return tt)
        (on_book-NoError (remove_filled_order p fill.order_id maker.index_slot)
          (remove_filled_order-NoError p fill.order_id maker.index_slot))
        (NoError-bind (on_book reduced) (λ _. return tt)
          (on_book-NoError reduced
            (reduce_at-NoError side fill.level_index fill.slot fill.quantity))
          (λ _. return-NoError tt))

  apply_fill-NoError : NoError (apply_fill order side fill)
  unfolding apply_fill
  apply_fill-NoError d =
      NoError-bind (lift (occupied_level (side_of d.0 side) fill.level_index)) fill_in_level
        (λ d' why. occupied_level-no_error (side_of d.0 side) fill.level_index why)
        (λ level.
          NoError-bind (lift (unwrap (get_live level fill.slot))) fill_of_maker
            (unwrap-NoError (get_live level fill.slot))
            (λ maker.
              NoError-bind (push_planned (report_of order fill.order_id fill.price fill.quantity))
                (λ _. write_fill maker)
                (push_planned-NoError (report_of order fill.order_id fill.price fill.quantity))
                (λ _. write_fill-NoError maker)))
        d

apply_fills-NoError :
    (order : NewOrder) (side : Side) (fills : List FillEntry)
    → NoError (apply_fills order side fills)
unfolding apply_fills
apply_fills-NoError order side [] = return-NoError tt
apply_fills-NoError order side (fill ∷ fills) =
    NoError-bind (apply_fill order side fill) (λ _. apply_fills order side fills)
      (apply_fill-NoError order side fill) (λ _. apply_fills-NoError order side fills)

apply_plan-NoError : (order : NewOrder) (plan : MatchPlan) → NoError (apply_plan order plan)
unfolding apply_plan
apply_plan-NoError order plan =
    let rested = on_book (rest order plan.resting_quantity) in
    NoError-bind (apply_fills order plan.maker_side plan.fills)
      (λ _. if plan.resting_quantity == 0 then return tt else rested)
      (apply_fills-NoError order plan.maker_side plan.fills)
      (λ _. NoError-if (plan.resting_quantity == 0) (return tt) rested (return-NoError tt) (
        on_book-NoError (rest order plan.resting_quantity)
          (rest-NoError order plan.resting_quantity)))

submit_plan-keeps :
    (order : NewOrder) (side : Side) (d : Desk) → KeepsOnError (submit_plan order side) d
unfolding submit_plan
submit_plan-keeps order side d =
    let planned = build_plan (length d.1.entries) d.0 order side (Reports.remaining_capacity d.1) in
    let finish = λ (plan : MatchPlan).
      get >>= λ (d' : Desk). return (summary_of order plan (d'.1.len - d.1.len)) in
    keeps-bind_lift planned (λ plan. apply_plan order plan >> finish plan) d
      (λ plan. NoError-keeps (apply_plan order plan >> finish plan) d (
        NoError-bind (apply_plan order plan) (λ _. finish plan) (apply_plan-NoError order plan)
          (λ _ d' why refused. cc)))

-- How the attempt at a single fill ends: with an error or without a fill the desk is as it was.
abbrev pub SingleEnd : Outcome RejectReason (Option MatchSummary) × Desk → Desk → Type 0
SingleEnd r d =
    ((why : RejectReason) × (r.0 ≡ err why) × (r.1 ≡ d))
    ⊎ ((r.0 ≡ ok none) × (r.1 ≡ d))
    ⊎ ((summary : MatchSummary) × (r.0 ≡ ok (some summary)))
    ⊎ (r.0 ≡ panic)

module _ (order : NewOrder) (side : Side) (price : PriceTicks) (level slot : ℕ)
    (maker : RestingOrder) where
  abbrev single_fill : DeskCall (Option MatchSummary)
  single_fill =
      push_report (report_of order maker.id price order.quantity)
      >> (on_book (fill_maker side level slot maker order.quantity)
          >> return (some (single_summary order)))

  single_fill-ends : (d : Desk) → SingleEnd (single_fill d) d
  single_fill-ends d =
      let pushed = push_report (report_of order maker.id price order.quantity) d in
      elim (outcome-cases pushed.0) [
        | inl (_, done) ↦
            let d' = pushed.1 in
            elim (outcome-cases (fill_maker side level slot maker order.quantity d'.0).0) [
              | inl (_, filled) ↦ rw (done, filled) (inr (inr (inl (single_summary order, refl))))
              | inr (inl (why, failed)) ↦
                  absurd (fill_maker-NoError side level slot maker order.quantity d'.0 why failed)
              | inr (inr stuck) ↦ rw (done, stuck) (inr (inr (inr refl)))
            ]
        | inr (inl (why, failed)) ↦
            let same =
              push_report-keeps (report_of order maker.id price order.quantity) d why failed in
            rw failed (inl (why, refl, same))
        | inr (inr stuck) ↦ rw stuck (inr (inr (inr refl)))
      ]

pub try_single_fill-ends :
    (order : NewOrder) (side : Side) (d : Desk) → SingleEnd (try_single_fill order side d) d
unfolding try_single_fill
try_single_fill-ends order side d =
    elim (outcome-cases (best_maker order.side order.price (side_of d.0 side))) [
      | inr (inl (why, failed)) ↦ rw (try_single_fill, failed) (inl (why, refl, refl))
      | inr (inr stuck) ↦ rw (try_single_fill, stuck) (inr (inr (inr refl)))
      | inl (none, nobody) ↦ rw (try_single_fill, nobody) (inr (inl (refl, refl)))
      | inl (some (price, level, slot, maker), best) ↦
          elim (Bool-cases (ltb maker.quantity order.quantity)) [
            | inl short ↦ rw (try_single_fill, best, short) (inr (inl (refl, refl)))
            | inr covers ↦
                rw (try_single_fill, best, covers)
                  (single_fill-ends order side price level slot maker d)
          ]
    ]

abbrev choose : NewOrder → Side → Option MatchSummary → DeskCall MatchSummary
choose order side single = elim single [
  | some summary ↦ return summary
  | none ↦ submit_plan order side
]

-- A submission that is refused with an error leaves the book and the reports as they were.
pub submit-refused :
    (d : Desk) (order : NewOrder) (why : RejectReason)
    → (submit order d).0 ≡ err why
    → (submit order d).1 ≡ d
unfolding submit
submit-refused d order why =
    keeps-bind_lift (validate_order d.0 order)
      (λ side. try_single_fill order side >>= choose order side) d
      (λ side why' refused. elim (try_single_fill-ends order side d) [
        | inl (e, failed, same) ↦ rw failed same
        | inr (inl (nothing, same)) ↦
            let refused' = rw (nothing, same) at refused in
            rw (nothing, same) (submit_plan-keeps order side d why' refused')
        | inr (inr (inl (summary, done))) ↦ let r = rw done at refused in cc
        | inr (inr (inr stuck)) ↦ let r = rw stuck at refused in cc
      ])
      why
