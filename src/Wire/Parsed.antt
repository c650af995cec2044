-- ===== src/Wire/Parsed.antt =====
-- What a frame holds that `parse_message` accepts.
use deterministic_exchange_r.Prelude.{
  ℕ, ◌+◌, ◌*◌, ◌<◌, ◌≡◌, inl, inr, ap, ◌∙◌, List, ◌==◌, ◌||◌, ==_iff, Bool-cases, ltb, not, some,
  true, arith, length, get_elem?,
}
use deterministic_exchange_r.Prelude.Bytes.{IsBytes, from_be_bytes}
use deterministic_exchange_r.Prelude.Outcome.{ok, guard_then, unwrap_then, Outcome, >>=-eq-ok}
use deterministic_exchange_r.Wire.Decode
use deterministic_exchange_r.Wire.Decode.{
  ParseError, BorrowedMessage, new_order_to_owned, cancel_order_to_owned, replace_order_to_owned,
  to_command, read_u64, read_u32, read_i64, parse_new_order, parse_body, array_of, ParseError,
  parse_message, message_sequence,
}
use deterministic_exchange_r.Wire.Slices.{IsBytes-get_elem?}

-- The header of a frame: its version, its kind, and its own length.
pub record Header (bytes : List ℕ) (kind len : ℕ) : Type 0 where
  pub size : length bytes ≡ len
  pub version : get_elem? bytes 0 ≡ some 2
  pub type : get_elem? bytes 1 ≡ some kind
  pub high : get_elem? bytes 2 ≡ some 0
  pub low : get_elem? bytes 3 ≡ some len

pub record NewOrderFrame (bytes : List ℕ) : Type 0 where
  pub header : Header bytes 1 46
  pub side : ℕ
  pub tif : ℕ
  pub side_at : get_elem? bytes 44 ≡ some side
  pub tif_at : get_elem? bytes 45 ≡ some tif
  pub side_valid : (side == 1 || side == 2) ≡ true
  pub tif_valid : (tif == 1 || tif == 2 || tif == 3 || tif == 4) ≡ true

-- the three ways in which parsing succeeds
pub data Parsed (bytes : List ℕ) (m : BorrowedMessage) : Type 0 where
  as_new : NewOrderFrame bytes → m ≡ Decode.new_order bytes → Parsed bytes m
  as_cancel : Header bytes 2 28 → m ≡ Decode.cancel_order bytes → Parsed bytes m
  as_replace : Header bytes 3 44 → m ≡ Decode.replace_order bytes → Parsed bytes m

array_of-eq :
    (n : ℕ) (bytes typed : List ℕ) → array_of {E = ParseError} n bytes ≡ ok typed → typed ≡ bytes
array_of-eq n bytes typed h = elim (Bool-cases (length bytes == n)) [
  | inl fits ↦ let h' = rw (array_of, fits) at h in cc
  | inr other ↦ let h' = rw (array_of, other) at h in cc
]

new_order_eq :
    {bytes typed : List ℕ} {m : BorrowedMessage}
    → typed ≡ bytes
    → ◌≡◌ {A = Outcome ParseError BorrowedMessage} (ok (Decode.new_order typed)) (ok m)
    → m ≡ Decode.new_order bytes
new_order_eq same h = cc

module _ (bytes : List ℕ) {m : BorrowedMessage} where
  parse_new_order-Parsed :
      (len : ℕ) → (len ≡ 46 → Header bytes 1 46) → parse_new_order bytes len ≡ ok m → Parsed bytes m
  unfolding parse_new_order
  parse_new_order-Parsed len hd h =
      let (is_len, h1) = guard_then (len == 46) _ _ h in
      let (s, side_at, h2) = unwrap_then (get_elem? bytes 44) _ h1 in
      let (side_valid, h3) = guard_then (s == 1 || s == 2) _ _ h2 in
      let (t, tif_at, h4) = unwrap_then (get_elem? bytes 45) _ h3 in
      let (tif_valid, h5) = guard_then (t == 1 || t == 2 || t == 3 || t == 4) _ _ h4 in
      let (typed, whole, h6) = >>=-eq-ok (array_of 46 bytes) (λ x. ok (Decode.new_order x)) h5 in
      let same = array_of-eq 46 bytes typed whole in
      as_new
        (record {
          header = hd ((==_iff len 46).0 is_len);
          side = s;
          tif = t;
          side_at = side_at;
          tif_at = tif_at;
          side_valid = side_valid;
          tif_valid = tif_valid;
        })
        (new_order_eq same h6)

  parse_body-Parsed :
      (len kind : ℕ)
      → ((k n : ℕ) → kind ≡ k → len ≡ n → n < 256 → Header bytes k n)
      → parse_body bytes len kind ≡ ok m
      → Parsed bytes m
  unfolding parse_body
  parse_body-Parsed len kind hd h = elim (Bool-cases (kind == 1)) [
    | inl e ↦
        parse_new_order-Parsed len (λ n. hd 1 46 ((==_iff kind 1).0 e) n (omega arith)) (rw e at h)
    | inr e ↦ elim (Bool-cases (kind == 2)) [
      | inl f ↦
          let (n, h') = guard_then (len == 28) _ _ (rw (e, f) at h) in
          as_cancel (hd 2 28 ((==_iff kind 2).0 f) ((==_iff len 28).0 n) (omega arith)) (cc)
      | inr f ↦ elim (Bool-cases (kind == 3)) [
        | inl g ↦
            let (n, h') = guard_then (len == 44) _ _ (rw (e, f, g) at h) in
            as_replace (hd 3 44 ((==_iff kind 3).0 g) ((==_iff len 44).0 n) (omega arith)) (cc)
        | inr g ↦ let h' = rw (e, f, g) at h in cc
      ]
    ]
  ]

  -- A frame of bytes that parses has a header that names its kind and its own length.
  pub parse_message-Parsed : IsBytes bytes → parse_message bytes ≡ ok m → Parsed bytes m
  unfolding parse_message from_be_bytes
  parse_message-Parsed valid h =
      let (long, h1) = guard_then (not (ltb (length bytes) 4)) _ _ h in
      let (v, version, h2) = unwrap_then (get_elem? bytes 0) _ h1 in
      let (is_version, h3) = guard_then (v == 2) _ _ h2 in
      let (hi, high, h4) = unwrap_then (get_elem? bytes 2) _ h3 in
      let (lo, low, h5) = unwrap_then (get_elem? bytes 3) _ h4 in
      let (is_size, h6) = guard_then (length bytes == (0 * 256 + hi) * 256 + lo) _ _ h5 in
      let (k, type, h7) = unwrap_then (get_elem? bytes 1) _ h6 in
      let size = (==_iff (length bytes) ((0 * 256 + hi) * 256 + lo)).0 is_size in
      let hi_byte = IsBytes-get_elem? bytes 2 valid high in
      let lo_byte = IsBytes-get_elem? bytes 3 valid low in
      parse_body-Parsed ((0 * 256 + hi) * 256 + lo) k
        (λ kind n is_kind is_len small. record {
          size = size ∙ is_len;
          version = version ∙ ap some ((==_iff v 2).0 is_version);
          type = type ∙ ap some is_kind;
          high = high ∙ ap some (omega arith);
          low = low ∙ ap some (omega arith);
        })
        h7
