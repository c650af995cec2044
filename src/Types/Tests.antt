-- ===== src/Types/Tests.antt =====
-- A report buffer with two slots.
use deterministic_exchange_r.Prelude.{◌+◌, ◌≡◌, refl, [], ◌∷◌, arith}
use deterministic_exchange_r.Prelude.Int.{pos}
use deterministic_exchange_r.Prelude.Outcome.{ok, err}
use deterministic_exchange_r.Types.{ExecutionReport, report_capacity}
use deterministic_exchange_r.Types.Reports.{
  ReportBuffer, empty_report, push, reports, remaining_capacity, IsValid, push-room, push-full,
}

abbrev fill : ExecutionReport
fill = record {
  maker_order_id = 3;
  taker_order_id = 4;
  instrument_id = 1;
  price = pos 100;
  quantity = 5;
  sequence = 9;
}

abbrev one_of_two : ReportBuffer
one_of_two = record { entries = fill ∷ empty_report ∷ []; len = 1 }

push-room_example :
    ((push fill one_of_two).0 ≡ ok tt)
    × (reports (push fill one_of_two).1 ≡ fill ∷ fill ∷ [])
    × IsValid (push fill one_of_two).1
    × (remaining_capacity (push fill one_of_two).1 + 1 ≡ remaining_capacity one_of_two)
unfolding remaining_capacity
push-room_example = push-room one_of_two fill (omega arith)

abbrev two_of_two : ReportBuffer
two_of_two = record { entries = fill ∷ fill ∷ []; len = 2 }

push-full_example : push fill two_of_two ≡ (err report_capacity, two_of_two)
unfolding remaining_capacity
push-full_example = push-full two_of_two fill (omega arith) refl
