-- ===== src/Wire/Canonical.antt =====
-- What `parse_message` accepts is exactly what `encode_*` writes.
use deterministic_exchange_r.Prelude.{ℕ, ◌≡◌, ◌∙◌, List, [], ◌∷◌, ◌++◌, arith, length}
use deterministic_exchange_r.Prelude.Bytes.{IsBytes, from_be_bytes, i64_of_bits}
use deterministic_exchange_r.Prelude.Outcome.{ok}
use deterministic_exchange_r.Types.{
  NewOrder, CancelOrder, ReplaceOrder, Command, new_order, cancel_order, replace_order,
  command_sequence,
}
use deterministic_exchange_r.Wire.Decode
use deterministic_exchange_r.Wire.Decode.{
  ParseError, BorrowedMessage, new_order_to_owned, cancel_order_to_owned, replace_order_to_owned,
  to_command, read_u64, read_u32, read_i64, parse_new_order, parse_body, parse_message,
  message_sequence,
}
use deterministic_exchange_r.Wire.Encode.{
  encode, encode_new_order, encode_cancel_order, encode_replace_order,
}
use deterministic_exchange_r.Wire.Slices.{
  slice, cut, cut_one, drop-length, read_u64-eq-slice, read_u32-eq-slice, read_i64-eq-slice,
}
use deterministic_exchange_r.Wire.RoundTrip.{Fits, NewOrderFits, CancelOrderFits, ReplaceOrderFits}
use deterministic_exchange_r.Wire.Fields.{
  header_then, u64-back, u32-back, i64-back, u64-fits, u32-fits, i64-fits, side_code-back,
  tif_code-back,
}
use deterministic_exchange_r.Wire.Parsed.{
  Header, NewOrderFrame, Parsed, as_new, as_cancel, as_replace, parse_message-Parsed,
}

module _ (bytes : List ℕ) (valid : IsBytes bytes) where
  -- the command that a frame holds
  new_order_at : NewOrderFrame bytes → NewOrder
  new_order_at f = record {
    order_id = from_be_bytes (slice bytes 4 8);
    account_id = from_be_bytes (slice bytes 12 4);
    instrument_id = from_be_bytes (slice bytes 16 4);
    price = i64_of_bits (from_be_bytes (slice bytes 20 8));
    quantity = from_be_bytes (slice bytes 28 8);
    sequence = from_be_bytes (slice bytes 36 8);
    side = Decode.side_of_code f.side;
    time_in_force = Decode.tif_of_code f.tif;
  }

  new_order-read :
      {E : Type 0} (f : NewOrderFrame bytes)
      → new_order_to_owned {E = E} bytes ≡ ok (new_order_at f)
  unfolding new_order_to_owned new_order_at
  new_order-read {E} f =
      let size = f.header.size in
      rw (
        f.tif_at,
        read_u64-eq-slice {E = E} bytes 4 (omega arith),
        read_u32-eq-slice {E = E} bytes 12 (omega arith),
        read_u32-eq-slice {E = E} bytes 16 (omega arith),
        read_i64-eq-slice {E = E} bytes 20 (omega arith),
        read_u64-eq-slice {E = E} bytes 28 (omega arith),
        read_u64-eq-slice {E = E} bytes 36 (omega arith),
        f.side_at,
      )

  new_order_at-Fits : (f : NewOrderFrame bytes) → NewOrderFits (new_order_at f)
  unfolding new_order_at
  new_order_at-Fits f =
      let size = f.header.size in
      record {
        order_id = u64-fits bytes valid 4 (omega arith);
        account_id = u32-fits bytes valid 12 (omega arith);
        instrument_id = u32-fits bytes valid 16 (omega arith);
        price = i64-fits bytes valid 20 (omega arith);
        quantity = u64-fits bytes valid 28 (omega arith);
        sequence = u64-fits bytes valid 36 (omega arith);
      }

  new_order_at-encode : (f : NewOrderFrame bytes) → encode_new_order (new_order_at f) ≡ bytes
  unfolding new_order_at encode_new_order
  new_order_at-encode f =
      let size = f.header.size in
      (λ i.
        2
        ∷ 1
        ∷ 0
        ∷ 46
        ∷ (u64-back bytes valid 4 (omega arith) i
            ++ (u32-back bytes valid 12 (omega arith) i
                ++ (u32-back bytes valid 16 (omega arith) i
                    ++ (i64-back bytes valid 20 (omega arith) i
                        ++ (u64-back bytes valid 28 (omega arith) i
                            ++ (u64-back bytes valid 36 (omega arith) i
                                ++ side_code-back f.side f.side_valid i
                                  ∷ tif_code-back f.tif f.tif_valid i
                                  ∷ [])))))))
      ∙ header_then bytes valid f.header (
          cut bytes 4 8 (
            cut bytes 12 4 (
              cut bytes 16 4 (
                cut bytes 20 8 (
                  cut bytes 28 8 (
                    cut bytes 36 8 (
                      cut_one bytes 44 f.side f.side_at
                        (cut_one bytes 45 f.tif f.tif_at (drop-length bytes 46 size)))))))))

  cancel_order_at : CancelOrder
  cancel_order_at = record {
    order_id = from_be_bytes (slice bytes 4 8);
    account_id = from_be_bytes (slice bytes 12 4);
    instrument_id = from_be_bytes (slice bytes 16 4);
    sequence = from_be_bytes (slice bytes 20 8);
  }

  cancel_order-read :
      {E : Type 0} → length bytes ≡ 28 → cancel_order_to_owned {E = E} bytes ≡ ok cancel_order_at
  unfolding cancel_order_to_owned cancel_order_at
  cancel_order-read {E} size = rw (
    read_u64-eq-slice {E = E} bytes 4 (omega arith),
    read_u32-eq-slice {E = E} bytes 12 (omega arith),
    read_u32-eq-slice {E = E} bytes 16 (omega arith),
    read_u64-eq-slice {E = E} bytes 20 (omega arith),
  )

  cancel_order_at-Fits : length bytes ≡ 28 → CancelOrderFits cancel_order_at
  unfolding cancel_order_at
  cancel_order_at-Fits size = record {
    order_id = u64-fits bytes valid 4 (omega arith);
    account_id = u32-fits bytes valid 12 (omega arith);
    instrument_id = u32-fits bytes valid 16 (omega arith);
    sequence = u64-fits bytes valid 20 (omega arith);
  }

  cancel_order_at-encode : Header bytes 2 28 → encode_cancel_order cancel_order_at ≡ bytes
  unfolding cancel_order_at encode_cancel_order
  cancel_order_at-encode hd =
      let size = hd.size in
      (λ i.
        2
        ∷ 2
        ∷ 0
        ∷ 28
        ∷ (u64-back bytes valid 4 (omega arith) i
            ++ (u32-back bytes valid 12 (omega arith) i
                ++ (u32-back bytes valid 16 (omega arith) i
                    ++ (u64-back bytes valid 20 (omega arith) i ++ [])))))
      ∙ header_then bytes valid hd (
          cut bytes 4 8
            (cut bytes 12 4 (cut bytes 16 4 (cut bytes 20 8 (drop-length bytes 28 size)))))

  replace_order_at : ReplaceOrder
  replace_order_at = record {
    order_id = from_be_bytes (slice bytes 4 8);
    account_id = from_be_bytes (slice bytes 12 4);
    instrument_id = from_be_bytes (slice bytes 16 4);
    sequence = from_be_bytes (slice bytes 20 8);
    price = i64_of_bits (from_be_bytes (slice bytes 28 8));
    quantity = from_be_bytes (slice bytes 36 8);
  }

  replace_order-read :
      {E : Type 0} → length bytes ≡ 44 → replace_order_to_owned {E = E} bytes ≡ ok replace_order_at
  unfolding replace_order_to_owned replace_order_at
  replace_order-read {E} size = rw (
    read_u64-eq-slice {E = E} bytes 4 (omega arith),
    read_u32-eq-slice {E = E} bytes 12 (omega arith),
    read_u32-eq-slice {E = E} bytes 16 (omega arith),
    read_u64-eq-slice {E = E} bytes 20 (omega arith),
    read_i64-eq-slice {E = E} bytes 28 (omega arith),
    read_u64-eq-slice {E = E} bytes 36 (omega arith),
  )

  replace_order_at-Fits : length bytes ≡ 44 → ReplaceOrderFits replace_order_at
  unfolding replace_order_at
  replace_order_at-Fits size = record {
    order_id = u64-fits bytes valid 4 (omega arith);
    account_id = u32-fits bytes valid 12 (omega arith);
    instrument_id = u32-fits bytes valid 16 (omega arith);
    sequence = u64-fits bytes valid 20 (omega arith);
    price = i64-fits bytes valid 28 (omega arith);
    quantity = u64-fits bytes valid 36 (omega arith);
  }

  replace_order_at-encode : Header bytes 3 44 → encode_replace_order replace_order_at ≡ bytes
  unfolding replace_order_at encode_replace_order
  replace_order_at-encode hd =
      let size = hd.size in
      (λ i.
        2
        ∷ 3
        ∷ 0
        ∷ 44
        ∷ (u64-back bytes valid 4 (omega arith) i
            ++ (u32-back bytes valid 12 (omega arith) i
                ++ (u32-back bytes valid 16 (omega arith) i
                    ++ (u64-back bytes valid 20 (omega arith) i
                        ++ (i64-back bytes valid 28 (omega arith) i
                            ++ (u64-back bytes valid 36 (omega arith) i ++ [])))))))
      ∙ header_then bytes valid hd (
          cut bytes 4 8 (
            cut bytes 12 4 (
              cut bytes 16 4
                (cut bytes 20 8 (cut bytes 28 8 (cut bytes 36 8 (drop-length bytes 44 size)))))))

-- What a parsed message stands for: a command whose encoding is the frame itself.
pub record Stands (bytes : List ℕ) (m : BorrowedMessage) (c : Command) : Type 0 where
  pub decodes : to_command {E = ParseError} m ≡ ok c
  pub sequenced : message_sequence {E = ParseError} m ≡ ok (command_sequence c)
  pub fits : Fits c
  pub encodes : encode c ≡ bytes

Parsed-Stands :
    (bytes : List ℕ) {m : BorrowedMessage}
    → IsBytes bytes
    → Parsed bytes m
    → (c : Command) × Stands bytes m c
unfolding to_command message_sequence command_sequence encode new_order_at cancel_order_at
    replace_order_at
Parsed-Stands bytes valid (as_new f e) =
    let size = f.header.size in
    (
      new_order (new_order_at bytes valid f),
      record {
        decodes = rw (e, new_order-read bytes valid {E = ParseError} f);
        sequenced = rw e (read_u64-eq-slice {E = ParseError} bytes 36 (omega arith));
        fits = new_order_at-Fits bytes valid f;
        encodes = new_order_at-encode bytes valid f;
      },
    )
Parsed-Stands bytes valid (as_cancel hd e) =
    let size = hd.size in
    (
      cancel_order (cancel_order_at bytes valid),
      record {
        decodes = rw (e, cancel_order-read bytes valid {E = ParseError} hd.size);
        sequenced = rw e (read_u64-eq-slice {E = ParseError} bytes 20 (omega arith));
        fits = cancel_order_at-Fits bytes valid hd.size;
        encodes = cancel_order_at-encode bytes valid hd;
      },
    )
Parsed-Stands bytes valid (as_replace hd e) =
    let size = hd.size in
    (
      replace_order (replace_order_at bytes valid),
      record {
        decodes = rw (e, replace_order-read bytes valid {E = ParseError} hd.size);
        sequenced = rw e (read_u64-eq-slice {E = ParseError} bytes 20 (omega arith));
        fits = replace_order_at-Fits bytes valid hd.size;
        encodes = replace_order_at-encode bytes valid hd;
      },
    )

-- Every accepted frame decodes, without a panic, to a command whose fields fit their types, whose
-- sequence number is the one read from the borrowed message, and whose encoding is the frame.
pub parse_message-canonical :
    (bytes : List ℕ) {m : BorrowedMessage}
    → IsBytes bytes
    → parse_message bytes ≡ ok m
    → (c : Command) × Stands bytes m c
parse_message-canonical bytes valid h =
    Parsed-Stands bytes valid (parse_message-Parsed bytes valid h)
