-- ===== src/Wire/Tests.antt =====
-- One frame of each kind.
use deterministic_exchange_r.Prelude.{ℕ, ◌≡◌, ◌≢◌, refl, List, [], ◌∷◌, arith}
use deterministic_exchange_r.Prelude.Int.{negsuc}
use deterministic_exchange_r.Prelude.Bytes.{IsBytes, from_be_bytes}
use deterministic_exchange_r.Prelude.Outcome.{ok, panic, ◌>>=◌}
use deterministic_exchange_r.Types.{NewOrder, Command, new_order, sell, post_only}
use deterministic_exchange_r.Wire.Decode.{BorrowedMessage, parse_message, parse_body, to_command}
use deterministic_exchange_r.Wire.Encode.{encode}
use deterministic_exchange_r.Wire.RoundTrip.{decode-encode}
use deterministic_exchange_r.Wire.Canonical.{Stands, parse_message-canonical}
use deterministic_exchange_r.Wire.Total.{parse_message-ne-panic}

abbrev order : NewOrder
order = record {
  order_id = 258;
  account_id = 7;
  instrument_id = 3;
  price = negsuc 4;
  quantity = 1000;
  sequence = 12;
  side = sell;
  time_in_force = post_only;
}

decode-encode_example :
    (parse_message (encode (new_order order)) >>= to_command) ≡ ok (new_order order)
decode-encode_example = decode-encode (new_order order) (record {
  order_id = omega arith;
  account_id = omega arith;
  instrument_id = omega arith;
  price = refl;
  quantity = omega arith;
  sequence = omega arith;
})

abbrev cancel_frame : List ℕ
cancel_frame =
    2 ∷ 2 ∷ 0 ∷ 28 ∷ 0 ∷ 0 ∷ 0 ∷ 0 ∷ 0 ∷ 0 ∷ 0 ∷ 9 ∷ 0 ∷ 0 ∷ 0 ∷ 5 ∷ 0 ∷ 0 ∷ 0 ∷ 1 ∷ 0 ∷ 0 ∷ 0 ∷ 0
    ∷ 0 ∷ 0 ∷ 1 ∷ 4 ∷ []

cancel_frame-IsBytes : IsBytes cancel_frame
cancel_frame-IsBytes = ground arith

parse_message-canonical_example :
    (c : Command) × Stands cancel_frame (BorrowedMessage.cancel_order cancel_frame) c
unfolding parse_message parse_body from_be_bytes
parse_message-canonical_example =
    parse_message-canonical cancel_frame {m = BorrowedMessage.cancel_order cancel_frame}
      cancel_frame-IsBytes refl

parse_message-ne-panic_example : parse_message (1 ∷ 3 ∷ 0 ∷ []) ≢ panic
parse_message-ne-panic_example = parse_message-ne-panic (1 ∷ 3 ∷ 0 ∷ [])
