-- ===== src/Wire/Slices.antt =====
-- `read_bytes` as a slice of the frame.
use deterministic_exchange_r.Prelude.{
  ℕ, zero, suc, ◌+◌, ◌≤◌, ◌<◌, ◌≡◌, refl, ap, sym, List, [], ◌∷◌, ◌++◌, some, arith, length,
  length-take, length-drop, take, drop, take-append-drop, get_elem?,
}
use deterministic_exchange_r.Prelude.Bytes.{IsBytes, from_be_bytes, i64_of_bits}
use deterministic_exchange_r.Prelude.Outcome.{ok, ◌>>=◌}
use deterministic_exchange_r.Wire.Decode.{read_bytes, read_u64, read_u32, read_i64}

abbrev pub slice : List ℕ → ℕ → ℕ → List ℕ
slice bytes offset n = take n (drop offset bytes)

pub drop-cons :
    (xs : List ℕ) (i : ℕ)
    → i < length xs
    → (x : ℕ) × (get_elem? xs i ≡ some x) × (drop i xs ≡ x ∷ drop (suc i) xs)
drop-cons [] i h = absurd (omega arith)
drop-cons (x ∷ xs) zero h = (x, refl, refl)
drop-cons (x ∷ xs) (suc i) h = drop-cons xs i (omega arith)

pub read_bytes-eq-slice :
    {E : Type 0} (bytes : List ℕ) (offset n : ℕ)
    → offset + n ≤ length bytes
    → read_bytes {E = E} bytes offset n ≡ ok (slice bytes offset n)
read_bytes-eq-slice bytes offset zero h = refl
read_bytes-eq-slice {E} bytes offset (suc n) h =
    let (x, found, cut) = drop-cons bytes offset (omega arith) in
    let next : offset + 1 ≡ suc offset = omega arith in
    rw (found, cut, next, read_bytes-eq-slice {E = E} bytes (suc offset) n (omega arith))

drop-nil : (n : ℕ) → drop {A = ℕ} n [] ≡ []
drop-nil zero = refl
drop-nil (suc n) = refl

pub drop-drop : (xs : List ℕ) (m n : ℕ) → drop m (drop n xs) ≡ drop (n + m) xs
drop-drop xs m zero = let e : 0 + m ≡ m = omega arith in rw e
drop-drop [] m (suc n) = rw (drop-nil m, drop-nil (suc n + m))
drop-drop (x ∷ xs) m (suc n) =
    let e : suc n + m ≡ suc (n + m) = omega arith in rw e (drop-drop xs m n)

pub IsBytes-take : (n : ℕ) (xs : List ℕ) → IsBytes xs → IsBytes (take n xs)
IsBytes-take zero xs h = tt
IsBytes-take (suc n) [] h = tt
IsBytes-take (suc n) (x ∷ xs) h = (h.0, IsBytes-take n xs h.1)

pub IsBytes-drop : (n : ℕ) (xs : List ℕ) → IsBytes xs → IsBytes (drop n xs)
IsBytes-drop zero xs h = h
IsBytes-drop (suc n) [] h = tt
IsBytes-drop (suc n) (x ∷ xs) h = IsBytes-drop n xs h.1

-- Frames put together from the right: each field in front of what the frame holds after it.
pub cut :
    (bytes : List ℕ) (offset n : ℕ) {rest : List ℕ}
    → rest ≡ drop (offset + n) bytes
    → slice bytes offset n ++ rest ≡ drop offset bytes
cut bytes offset n e = rw (e, ← drop-drop bytes n offset) (take-append-drop n (drop offset bytes))

pub cut_one :
    (bytes : List ℕ) (i x : ℕ) {rest : List ℕ}
    → get_elem? bytes i ≡ some x
    → rest ≡ drop (suc i) bytes
    → x ∷ rest ≡ drop i bytes
cut_one [] i x h e = cc
cut_one (y ∷ ys) zero x h e = cc
cut_one (y ∷ ys) (suc i) x h e = cut_one ys i x h e

pub drop-length : (bytes : List ℕ) (n : ℕ) → length bytes ≡ n → [] ≡ drop n bytes
drop-length [] n e = sym (drop-nil n)
drop-length (x ∷ xs) zero e = absurd (omega arith)
drop-length (x ∷ xs) (suc n) e = drop-length xs n (omega arith)

pub length-slice :
    (bytes : List ℕ) (offset n : ℕ) → offset + n ≤ length bytes → length (slice bytes offset n) ≡ n
length-slice bytes offset n h =
    omega (arith, length-take n (drop offset bytes), length-drop offset bytes)

pub IsBytes-slice : (bytes : List ℕ) (offset n : ℕ) → IsBytes bytes → IsBytes (slice bytes offset n)
IsBytes-slice bytes offset n h = IsBytes-take n (drop offset bytes) (IsBytes-drop offset bytes h)

module _ {E : Type 0} (bytes : List ℕ) (offset : ℕ) where
  pub read_u64-eq-slice :
      offset + 8 ≤ length bytes
      → read_u64 {E = E} bytes offset ≡ ok (from_be_bytes (slice bytes offset 8))
  unfolding read_u64
  read_u64-eq-slice h =
      ap (λ r. r >>= λ xs. ok (from_be_bytes xs)) (read_bytes-eq-slice {E = E} bytes offset 8 h)

  pub read_u32-eq-slice :
      offset + 4 ≤ length bytes
      → read_u32 {E = E} bytes offset ≡ ok (from_be_bytes (slice bytes offset 4))
  unfolding read_u32
  read_u32-eq-slice h =
      ap (λ r. r >>= λ xs. ok (from_be_bytes xs)) (read_bytes-eq-slice {E = E} bytes offset 4 h)

  pub read_i64-eq-slice :
      offset + 8 ≤ length bytes
      → read_i64 {E = E} bytes offset ≡ ok (i64_of_bits (from_be_bytes (slice bytes offset 8)))
  unfolding read_i64
  read_i64-eq-slice h =
      ap (λ r. r >>= λ xs. ok (i64_of_bits (from_be_bytes xs)))
        (read_bytes-eq-slice {E = E} bytes offset 8 h)

pub IsBytes-get_elem? :
    (bytes : List ℕ) (i : ℕ) {b : ℕ} → IsBytes bytes → get_elem? bytes i ≡ some b → b < 256
IsBytes-get_elem? [] i h e = cc
IsBytes-get_elem? (x ∷ xs) zero h e = ground arith
IsBytes-get_elem? (x ∷ xs) (suc i) h e = IsBytes-get_elem? xs i h.1 e
