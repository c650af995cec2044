-- ===== src/Prelude/Bytes.antt =====
-- Big-endian integers as bytes: `to_be_bytes` and `from_be_bytes`.
use native.Mathlib.Nat.{pow-suc, mul-le-mul_right, mul_comm, mul_assoc}
use deterministic_exchange_r.Prelude.{
  ℕ, zero, suc, ◌+◌, ◌-◌, ◌*◌, ◌/◌, ◌%◌, ◌^◌, ◌≤◌, ◌<◌, ◌≡◌, refl, ◌∙◌, List, [], ◌∷◌, ◌++◌,
  append-nil, append_assoc, true, arith, length, length-append, ltb, if◌then◌else◌,
}
use deterministic_exchange_r.Prelude.Int.{ℤ, pos, negsuc}
use deterministic_exchange_r.Prelude.Words.{is_signed, i64_half}

abbrev pub to_be_bytes : ℕ → ℕ → List ℕ
to_be_bytes zero x = []
to_be_bytes (suc n) x = to_be_bytes n (x / 256) ++ x % 256 ∷ []

abbrev pub be_from : ℕ → List ℕ → ℕ
be_from acc [] = acc
be_from acc (b ∷ bs) = be_from (acc * 256 + b) bs

unfoldable pub from_be_bytes : List ℕ → ℕ
from_be_bytes bs = be_from 0 bs

-- The two's complement bits of an i64, and the i64 of 64 bits.
abbrev pub bits_of_i64 : ℤ → ℕ
bits_of_i64 (pos n) = n
bits_of_i64 (negsuc n) = 2 ^ 64 - (n + 1)

abbrev pub i64_of_bits : ℕ → ℤ
i64_of_bits u = if ltb u (2 ^ 63) then pos u else negsuc (2 ^ 64 - u - 1)

-- every entry of the list is a byte
abbrev pub IsBytes : List ℕ → Type 0
IsBytes [] = Unit {0}
IsBytes (b ∷ bs) = (b < 256) × IsBytes bs

be_from-append : (acc : ℕ) (xs ys : List ℕ) → be_from acc (xs ++ ys) ≡ be_from (be_from acc xs) ys
be_from-append acc [] ys = refl
be_from-append acc (x ∷ xs) ys = be_from-append (acc * 256 + x) xs ys

pub length-to_be_bytes : (n x : ℕ) → length (to_be_bytes n x) ≡ n
length-to_be_bytes zero x = refl
length-to_be_bytes (suc n) x =
    omega (
      arith,
      length-append (to_be_bytes n (x / 256)) (x % 256 ∷ []),
      length-to_be_bytes n (x / 256),
    )

-- Decoding what was encoded gives the number back, if it fits the width.
pub from-to_be_bytes : (n x : ℕ) → x < 256 ^ n → from_be_bytes (to_be_bytes n x) ≡ x
unfolding from_be_bytes
from-to_be_bytes zero x h = omega arith
from-to_be_bytes (suc n) x h =
    rw (be_from-append 0 (to_be_bytes n (x / 256)) (x % 256 ∷ []))
      (omega (arith, from-to_be_bytes n (x / 256) (omega (arith, pow-suc 256 n))))

to_be_bytes-be_from :
    (bs : List ℕ) (k n acc : ℕ)
    → IsBytes bs
    → n ≡ k + length bs
    → to_be_bytes n (be_from acc bs) ≡ to_be_bytes k acc ++ bs
to_be_bytes-be_from [] k n acc h e = let same : n ≡ k = omega arith in rw (append-nil, same)
to_be_bytes-be_from (b ∷ bs) k n acc h e =
    to_be_bytes-be_from bs (suc k) n (acc * 256 + b) h.1 (omega arith)
    ∙ rw (high, low) (append_assoc (to_be_bytes k acc) (b ∷ []) bs)
  where
    high : (acc * 256 + b) / 256 ≡ acc
    high = omega arith

    low : (acc * 256 + b) % 256 ≡ b
    low = omega arith

-- Encoding what was decoded gives the bytes back.
pub to-from_be_bytes :
    (bs : List ℕ) (n : ℕ) → IsBytes bs → length bs ≡ n → to_be_bytes n (from_be_bytes bs) ≡ bs
unfolding from_be_bytes
to-from_be_bytes bs n h e = to_be_bytes-be_from bs 0 n 0 h (omega arith)

be_from-lt : (acc : ℕ) (bs : List ℕ) → IsBytes bs → be_from acc bs < (acc + 1) * 256 ^ length bs
be_from-lt acc [] h = omega arith
be_from-lt acc (b ∷ bs) h =
    let step : (acc * 256 + b + 1) * 256 ^ length bs ≤ (acc + 1) * 256 * 256 ^ length bs =
      mul-le-mul_right (256 ^ length bs) (omega arith) in
    let bound : be_from (acc * 256 + b) bs < (acc + 1) * 256 * 256 ^ length bs =
      omega (arith, be_from-lt (acc * 256 + b) bs h.1, step) in
    rw (pow-suc, mul_comm (256 ^ length bs) 256, ← mul_assoc) bound

-- What n bytes decode to fits n bytes.
pub from_be_bytes-lt : (bs : List ℕ) → IsBytes bs → from_be_bytes bs < 256 ^ length bs
unfolding from_be_bytes
from_be_bytes-lt bs h = omega (arith, be_from-lt 0 bs h)

pub i64_of_bits-bits_of_i64 :
    (z : ℤ) → is_signed i64_half z ≡ true → i64_of_bits (bits_of_i64 z) ≡ z
i64_of_bits-bits_of_i64 z h = ground arith

pub bits_of_i64-i64_of_bits : (u : ℕ) → u < 2 ^ 64 → bits_of_i64 (i64_of_bits u) ≡ u
bits_of_i64-i64_of_bits u h = ground arith

pub bits_of_i64-lt : (z : ℤ) → is_signed i64_half z ≡ true → bits_of_i64 z < 2 ^ 64
bits_of_i64-lt z h = ground arith

pub i64_of_bits-is_signed : (u : ℕ) → u < 2 ^ 64 → is_signed i64_half (i64_of_bits u) ≡ true
i64_of_bits-is_signed u h = ground arith
