-- ===== src/Wire/Decode.antt =====
-- `parse_message` and the `to_owned` methods. An index out of range and an `unwrap` of nothing are
-- panics. A frame is the list of its bytes.
use deterministic_exchange_r.Prelude.{
  ℕ, zero, suc, ◌+◌, List, [], ◌∷◌, ◌||◌, not, ltb, ◌==◌, if◌then◌else◌, length, get_elem?,
}
use deterministic_exchange_r.Prelude.Bytes.{from_be_bytes, i64_of_bits}
use deterministic_exchange_r.Prelude.Int.{ℤ}
use deterministic_exchange_r.Prelude.Outcome.{Outcome, ok, err, panic, ◌>>=◌, ◌>>◌, guard, unwrap}
use deterministic_exchange_r.Types.{
  Side, buy, sell, TimeInForce, gtc, ioc, fok, post_only, NewOrder, CancelOrder, ReplaceOrder,
  Command,
}
use deterministic_exchange_r.Types

abbrev pub protocol_version : ℕ
protocol_version = 2

abbrev pub new_order_type : ℕ
new_order_type = 1

abbrev pub cancel_order_type : ℕ
cancel_order_type = 2

abbrev pub replace_order_type : ℕ
replace_order_type = 3

abbrev pub new_order_len : ℕ
new_order_len = 46

abbrev pub cancel_order_len : ℕ
cancel_order_len = 28

abbrev pub replace_order_len : ℕ
replace_order_len = 44

pub data ParseError : Type 0 where
  truncated_header unsupported_version unknown_message_type : ParseError
  invalid_length invalid_side invalid_time_in_force : ParseError

-- Each of the three borrowed messages is the frame that it borrows.
pub data BorrowedMessage : Type 0 where
  new_order : List ℕ → BorrowedMessage
  cancel_order : List ℕ → BorrowedMessage
  replace_order : List ℕ → BorrowedMessage

-- `bytes[i]`
abbrev pub index : {E : Type 0} → List ℕ → ℕ → Outcome E ℕ
index bytes i = unwrap (get_elem? bytes i)

-- `bytes[offset], bytes[offset + 1], …`, and `bytes[offset..offset + n].try_into().unwrap()`
abbrev pub read_bytes : {E : Type 0} → List ℕ → ℕ → ℕ → Outcome E (List ℕ)
read_bytes bytes offset zero = ok []
read_bytes bytes offset (suc n) = do
  b ← index bytes offset
  rest ← read_bytes bytes (offset + 1) n
  ok (b ∷ rest)

unfoldable pub read_u64 : {E : Type 0} → List ℕ → ℕ → Outcome E ℕ
read_u64 bytes offset = do xs ← read_bytes bytes offset 8; ok (from_be_bytes xs)

unfoldable pub read_u32 : {E : Type 0} → List ℕ → ℕ → Outcome E ℕ
read_u32 bytes offset = do xs ← read_bytes bytes offset 4; ok (from_be_bytes xs)

unfoldable pub read_i64 : {E : Type 0} → List ℕ → ℕ → Outcome E ℤ
read_i64 bytes offset = do xs ← read_bytes bytes offset 8; ok (i64_of_bits (from_be_bytes xs))

abbrev pub tif_of_code : ℕ → TimeInForce
tif_of_code c = if c == 1 then gtc else if c == 2 then ioc else if c == 3 then fok else post_only

abbrev pub side_of_code : ℕ → Side
side_of_code c = if c == 1 then buy else sell

unfoldable pub new_order_to_owned : {E : Type 0} → List ℕ → Outcome E NewOrder
new_order_to_owned b = do
  tif ← index b 45
  order_id ← read_u64 b 4
  account_id ← read_u32 b 12
  instrument_id ← read_u32 b 16
  price ← read_i64 b 20
  quantity ← read_u64 b 28
  sequence ← read_u64 b 36
  side ← index b 44
  ok (record {
    order_id = order_id;
    account_id = account_id;
    instrument_id = instrument_id;
    price = price;
    quantity = quantity;
    sequence = sequence;
    side = side_of_code side;
    time_in_force = tif_of_code tif;
  })

unfoldable pub cancel_order_to_owned : {E : Type 0} → List ℕ → Outcome E CancelOrder
cancel_order_to_owned b = do
  order_id ← read_u64 b 4
  account_id ← read_u32 b 12
  instrument_id ← read_u32 b 16
  sequence ← read_u64 b 20
  ok (record {
    order_id = order_id;
    account_id = account_id;
    instrument_id = instrument_id;
    sequence = sequence;
  })

unfoldable pub replace_order_to_owned : {E : Type 0} → List ℕ → Outcome E ReplaceOrder
replace_order_to_owned b = do
  order_id ← read_u64 b 4
  account_id ← read_u32 b 12
  instrument_id ← read_u32 b 16
  sequence ← read_u64 b 20
  price ← read_i64 b 28
  quantity ← read_u64 b 36
  ok (record {
    order_id = order_id;
    account_id = account_id;
    instrument_id = instrument_id;
    sequence = sequence;
    price = price;
    quantity = quantity;
  })

-- `BorrowedMessage::sequence`
unfoldable pub message_sequence : {E : Type 0} → BorrowedMessage → Outcome E ℕ
message_sequence (new_order b) = read_u64 b 36
message_sequence (cancel_order b) = read_u64 b 20
message_sequence (replace_order b) = read_u64 b 20

unfoldable pub to_command : {E : Type 0} → BorrowedMessage → Outcome E Command
to_command (new_order b) = do o ← new_order_to_owned b; ok (Types.Command.new_order o)
to_command (cancel_order b) = do c ← cancel_order_to_owned b; ok (Types.Command.cancel_order c)
to_command (replace_order b) = do r ← replace_order_to_owned b; ok (Types.Command.replace_order r)

-- `bytes.try_into().expect(..)`, into an array of n bytes
abbrev pub array_of : {E : Type 0} → ℕ → List ℕ → Outcome E (List ℕ)
array_of n bytes = if length bytes == n then ok bytes else panic

-- The `match bytes[1]` of `parse_message`, an arm each.
unfoldable pub parse_new_order : List ℕ → ℕ → Outcome ParseError BorrowedMessage
parse_new_order bytes declared = do
  guard (declared == new_order_len) invalid_length
  side ← index bytes 44
  guard (side == 1 || side == 2) invalid_side
  tif ← index bytes 45
  guard (tif == 1 || tif == 2 || tif == 3 || tif == 4) invalid_time_in_force
  typed ← array_of new_order_len bytes
  ok (new_order typed)

unfoldable pub parse_body : List ℕ → ℕ → ℕ → Outcome ParseError BorrowedMessage
unfolding parse_new_order
parse_body bytes declared kind =
    if kind == new_order_type
    then parse_new_order bytes declared
    else if kind == cancel_order_type
    then guard (declared == cancel_order_len) invalid_length >> ok (cancel_order bytes)
    else if kind == replace_order_type
    then guard (declared == replace_order_len) invalid_length >> ok (replace_order bytes)
    else err unknown_message_type

unfoldable pub parse_message : List ℕ → Outcome ParseError BorrowedMessage
unfolding parse_body
parse_message bytes = do
  guard (not (ltb (length bytes) 4)) truncated_header
  version ← index bytes 0
  guard (version == protocol_version) unsupported_version
  high ← index bytes 2
  low ← index bytes 3
  let declared = from_be_bytes (high ∷ low ∷ [])
  guard (length bytes == declared) invalid_length
  kind ← index bytes 1
  parse_body bytes declared kind
