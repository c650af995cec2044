-- ===== src/Wire/RoundTrip.antt =====
-- What `encode_*` writes is read back as the command that was written.
use deterministic_exchange_r.Prelude.{ℕ, ◌<◌, ◌≡◌, refl, ◌==◌, ◌||◌, true, arith}
use deterministic_exchange_r.Prelude.Bytes.{
  to_be_bytes, from_be_bytes, bits_of_i64, i64_of_bits, from-to_be_bytes, i64_of_bits-bits_of_i64,
  bits_of_i64-lt,
}
use deterministic_exchange_r.Prelude.Int.{ℤ}
use deterministic_exchange_r.Prelude.Words.{is_signed, i64_half, u32_mod, u64_mod}
use deterministic_exchange_r.Prelude.Outcome.{ok, ◌>>=◌}
use deterministic_exchange_r.Types.{
  Side, buy, sell, TimeInForce, gtc, ioc, fok, post_only, side_code, tif_code, NewOrder,
  CancelOrder, ReplaceOrder, Command, new_order, cancel_order, replace_order,
}
use deterministic_exchange_r.Wire.Decode
use deterministic_exchange_r.Wire.Decode.{
  ParseError, BorrowedMessage, new_order_to_owned, cancel_order_to_owned, replace_order_to_owned,
  to_command, read_u64, read_u32, read_i64, parse_message, message_sequence,
}
use deterministic_exchange_r.Wire.Encode.{
  encode, encode_new_order, encode_cancel_order, encode_replace_order,
}

-- The fields fit their Rust types.
pub record NewOrderFits (o : NewOrder) : Type 0 where
  pub order_id : o.order_id < u64_mod
  pub account_id : o.account_id < u32_mod
  pub instrument_id : o.instrument_id < u32_mod
  pub price : is_signed i64_half o.price ≡ true
  pub quantity : o.quantity < u64_mod
  pub sequence : o.sequence < u64_mod

pub record CancelOrderFits (c : CancelOrder) : Type 0 where
  pub order_id : c.order_id < u64_mod
  pub account_id : c.account_id < u32_mod
  pub instrument_id : c.instrument_id < u32_mod
  pub sequence : c.sequence < u64_mod

pub record ReplaceOrderFits (r : ReplaceOrder) : Type 0 where
  pub order_id : r.order_id < u64_mod
  pub account_id : r.account_id < u32_mod
  pub instrument_id : r.instrument_id < u32_mod
  pub sequence : r.sequence < u64_mod
  pub price : is_signed i64_half r.price ≡ true
  pub quantity : r.quantity < u64_mod

abbrev pub Fits : Command → Type 0
Fits (new_order o) = NewOrderFits o
Fits (cancel_order c) = CancelOrderFits c
Fits (replace_order r) = ReplaceOrderFits r

u64-round : (x : ℕ) → x < u64_mod → from_be_bytes (to_be_bytes 8 x) ≡ x
u64-round x h = from-to_be_bytes 8 x (omega arith)

u32-round : (x : ℕ) → x < u32_mod → from_be_bytes (to_be_bytes 4 x) ≡ x
u32-round x h = from-to_be_bytes 4 x (omega arith)

i64-round :
    (z : ℤ)
    → is_signed i64_half z ≡ true
    → i64_of_bits (from_be_bytes (to_be_bytes 8 (bits_of_i64 z))) ≡ z
i64-round z h = rw (u64-round (bits_of_i64 z) (bits_of_i64-lt z h)) (i64_of_bits-bits_of_i64 z h)

side-round : (s : Side) → Decode.side_of_code (side_code s) ≡ s
side-round buy = refl
side-round sell = refl

tif-round : (t : TimeInForce) → Decode.tif_of_code (tif_code t) ≡ t
tif-round gtc = refl
tif-round ioc = refl
tif-round fok = refl
tif-round post_only = refl

side_code-valid : (s : Side) → (side_code s == 1 || side_code s == 2) ≡ true
side_code-valid buy = refl
side_code-valid sell = refl

tif_code-valid :
    (t : TimeInForce)
    → (tif_code t == 1 || tif_code t == 2 || tif_code t == 3 || tif_code t == 4) ≡ true
tif_code-valid gtc = refl
tif_code-valid ioc = refl
tif_code-valid fok = refl
tif_code-valid post_only = refl

new_order-round :
    (o : NewOrder)
    → NewOrderFits o
    → new_order_to_owned {E = ParseError} (encode_new_order o) ≡ ok o
unfolding new_order_to_owned encode_new_order read_u64 read_u32 read_i64
new_order-round o h = λ i. ok (record {
  order_id = u64-round o.order_id h.order_id i;
  account_id = u32-round o.account_id h.account_id i;
  instrument_id = u32-round o.instrument_id h.instrument_id i;
  price = i64-round o.price h.price i;
  quantity = u64-round o.quantity h.quantity i;
  sequence = u64-round o.sequence h.sequence i;
  side = side-round o.side i;
  time_in_force = tif-round o.time_in_force i;
})

cancel_order-round :
    (c : CancelOrder)
    → CancelOrderFits c
    → cancel_order_to_owned {E = ParseError} (encode_cancel_order c) ≡ ok c
unfolding cancel_order_to_owned encode_cancel_order read_u64 read_u32
cancel_order-round c h = λ i. ok (record {
  order_id = u64-round c.order_id h.order_id i;
  account_id = u32-round c.account_id h.account_id i;
  instrument_id = u32-round c.instrument_id h.instrument_id i;
  sequence = u64-round c.sequence h.sequence i;
})

replace_order-round :
    (r : ReplaceOrder)
    → ReplaceOrderFits r
    → replace_order_to_owned {E = ParseError} (encode_replace_order r) ≡ ok r
unfolding replace_order_to_owned encode_replace_order read_u64 read_u32 read_i64
replace_order-round r h = λ i. ok (record {
  order_id = u64-round r.order_id h.order_id i;
  account_id = u32-round r.account_id h.account_id i;
  instrument_id = u32-round r.instrument_id h.instrument_id i;
  sequence = u64-round r.sequence h.sequence i;
  price = i64-round r.price h.price i;
  quantity = u64-round r.quantity h.quantity i;
})

-- the message that a command's frame parses to
abbrev pub message_of : Command → BorrowedMessage
message_of (new_order o) = Decode.new_order (encode (new_order o))
message_of (cancel_order c) = Decode.cancel_order (encode (cancel_order c))
message_of (replace_order r) = Decode.replace_order (encode (replace_order r))

parse-encode : (c : Command) → parse_message (encode c) ≡ ok (message_of c)
unfolding parse_message encode from_be_bytes
parse-encode (new_order o) = rw (side_code-valid o.side, tif_code-valid o.time_in_force)
parse-encode (cancel_order c) = refl
parse-encode (replace_order r) = refl

to_command-message_of : (c : Command) → Fits c → to_command {E = ParseError} (message_of c) ≡ ok c
unfolding to_command encode
to_command-message_of (new_order o) h = rw (new_order-round o h)
to_command-message_of (cancel_order c) h = rw (cancel_order-round c h)
to_command-message_of (replace_order r) h = rw (replace_order-round r h)

-- A command whose fields fit their types survives encoding, parsing and decoding, for each of the
-- three kinds, and no step of it fails or panics.
pub decode-encode : (c : Command) → Fits c → (parse_message (encode c) >>= to_command) ≡ ok c
decode-encode c h = rw (parse-encode c) (to_command-message_of c h)
