-- ===== src/Wire/Fields.antt =====
-- The fields of a frame: each is read as a number of its width, and written back as it stood.
use deterministic_exchange_r.Prelude.{
  ℕ, ◌+◌, ◌≤◌, ◌<◌, ◌^◌, ◌≡◌, ap, ◌∙◌, List, ◌∷◌, ◌==◌, ◌||◌, true, arith, length, drop,
}
use deterministic_exchange_r.Prelude.Bytes.{
  IsBytes, to_be_bytes, from_be_bytes, bits_of_i64, i64_of_bits, to-from_be_bytes, from_be_bytes-lt,
  bits_of_i64-i64_of_bits, i64_of_bits-is_signed,
}
use deterministic_exchange_r.Prelude.Words.{is_signed, i64_half}
use deterministic_exchange_r.Types.{side_code, tif_code}
use deterministic_exchange_r.Wire.Decode
use deterministic_exchange_r.Wire.Decode.{
  ParseError, BorrowedMessage, new_order_to_owned, cancel_order_to_owned, replace_order_to_owned,
  to_command, read_u64, read_u32, read_i64, parse_new_order, parse_body, parse_message,
  message_sequence,
}
use deterministic_exchange_r.Wire.Slices.{slice, cut_one, length-slice, IsBytes-slice}
use deterministic_exchange_r.Wire.Parsed.{Header}

module _ (bytes : List ℕ) (valid : IsBytes bytes) where
  -- the frame from its fields
  pub header_then :
      {kind len : ℕ} {rest : List ℕ}
      → Header bytes kind len
      → rest ≡ drop 4 bytes
      → 2 ∷ kind ∷ 0 ∷ len ∷ rest ≡ bytes
  header_then {kind} {len} hd e =
      cut_one bytes 0 2 hd.version
        (cut_one bytes 1 kind hd.type (cut_one bytes 2 0 hd.high (cut_one bytes 3 len hd.low e)))

  pub u64-back :
      (o : ℕ)
      → o + 8 ≤ length bytes
      → to_be_bytes 8 (from_be_bytes (slice bytes o 8)) ≡ slice bytes o 8
  u64-back o h =
      to-from_be_bytes (slice bytes o 8) 8 (IsBytes-slice bytes o 8 valid)
        (length-slice bytes o 8 h)

  pub u32-back :
      (o : ℕ)
      → o + 4 ≤ length bytes
      → to_be_bytes 4 (from_be_bytes (slice bytes o 4)) ≡ slice bytes o 4
  u32-back o h =
      to-from_be_bytes (slice bytes o 4) 4 (IsBytes-slice bytes o 4 valid)
        (length-slice bytes o 4 h)

  pub u64-fits : (o : ℕ) → o + 8 ≤ length bytes → from_be_bytes (slice bytes o 8) < 2 ^ 64
  u64-fits o h =
      rw (length-slice bytes o 8 h) at
        (from_be_bytes-lt (slice bytes o 8) (IsBytes-slice bytes o 8 valid))

  pub u32-fits : (o : ℕ) → o + 4 ≤ length bytes → from_be_bytes (slice bytes o 4) < 2 ^ 32
  u32-fits o h =
      rw (length-slice bytes o 4 h) at
        (from_be_bytes-lt (slice bytes o 4) (IsBytes-slice bytes o 4 valid))

  pub i64-back :
      (o : ℕ)
      → o + 8 ≤ length bytes
      → to_be_bytes 8 (bits_of_i64 (i64_of_bits (from_be_bytes (slice bytes o 8))))
        ≡ slice bytes o 8
  i64-back o h =
      ap (to_be_bytes 8) (bits_of_i64-i64_of_bits (from_be_bytes (slice bytes o 8)) (u64-fits o h))
      ∙ u64-back o h

  pub i64-fits :
      (o : ℕ)
      → o + 8 ≤ length bytes
      → is_signed i64_half (i64_of_bits (from_be_bytes (slice bytes o 8))) ≡ true
  i64-fits o h = i64_of_bits-is_signed (from_be_bytes (slice bytes o 8)) (u64-fits o h)

pub side_code-back : (s : ℕ) → (s == 1 || s == 2) ≡ true → side_code (Decode.side_of_code s) ≡ s
side_code-back s h = ground arith

pub tif_code-back :
    (t : ℕ) → (t == 1 || t == 2 || t == 3 || t == 4) ≡ true → tif_code (Decode.tif_of_code t) ≡ t
tif_code-back t h = ground arith
