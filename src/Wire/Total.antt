-- ===== src/Wire/Total.antt =====
-- `parse_message` reads only inside the frame.
use deterministic_exchange_r.Prelude.{
  ℕ, ◌≤◌, ◌≡◌, ◌≢◌, inl, inr, true, List, [], ◌∷◌, ◌==◌, ==_iff, Bool-cases, ltb, arith, length,
  get_elem?-lt,
}
use deterministic_exchange_r.Prelude.Bytes.{from_be_bytes}
use deterministic_exchange_r.Prelude.Outcome.{panic}
use deterministic_exchange_r.Wire.Decode.{parse_new_order, parse_body, parse_message}

parse_new_order-ne-panic :
    (bytes : List ℕ) (len : ℕ) → length bytes ≡ len → parse_new_order bytes len ≢ panic
unfolding parse_new_order
parse_new_order-ne-panic bytes len e = elim (Bool-cases (len == 46)) [
  | inl h ↦
      let size = (==_iff len 46).0 h in
      let sized : (length bytes == 46) ≡ true = ground (arith, e, size) in
      let (s, at44) = get_elem?-lt bytes 44 (omega arith) in
      let (t, at45) = get_elem?-lt bytes 45 (omega arith) in
      rw (h, at44, at45, sized) (ground arith)
  | inr h ↦ rw h (λ p. cc)
]

parse_body-ne-panic :
    (bytes : List ℕ) (len kind : ℕ) → length bytes ≡ len → parse_body bytes len kind ≢ panic
unfolding parse_body
parse_body-ne-panic bytes len kind e = ground (arith, parse_new_order-ne-panic bytes len e)

-- No input makes the parser panic.
pub parse_message-ne-panic : (bytes : List ℕ) → parse_message bytes ≢ panic
unfolding parse_message
parse_message-ne-panic bytes = elim (Bool-cases (ltb (length bytes) 4)) [
  | inl short ↦ rw short (λ p. cc)
  | inr long ↦
      let size : 4 ≤ length bytes = ground arith in
      let (v, at0) = get_elem?-lt bytes 0 (omega arith) in
      let (k, at1) = get_elem?-lt bytes 1 (omega arith) in
      let (h, at2) = get_elem?-lt bytes 2 (omega arith) in
      let (l, at3) = get_elem?-lt bytes 3 (omega arith) in
      rw (long, at0, at1, at2, at3)
        (ground (arith, parse_body-ne-panic bytes (from_be_bytes (h ∷ l ∷ [])) k))
]
