-- ===== src/Prelude/Words.antt =====
-- Rust's machine integers. An unsigned w-bit integer is a number below 2 ^ w, a signed one an
-- integer; each operation says what happens past the bounds.
use deterministic_exchange_r.Prelude.{
  ℕ, ◌+◌, ◌-◌, ◌*◌, ◌^◌, Bool, ◌&&◌, Option, none, some, ltb, leb, if◌then◌else◌,
}
use deterministic_exchange_r.Prelude.Int.{ℤ, pos, negsuc, pos_part, neg_part, ◌+ℤ◌, ◌-ℤ◌}

abbrev pub u32_mod : ℕ
u32_mod = 2 ^ 32

abbrev pub u64_mod : ℕ
u64_mod = 2 ^ 64

abbrev pub u128_mod : ℕ
u128_mod = 2 ^ 128

-- `checked_add`, `checked_mul` at a width, given by its modulus
abbrev pub checked_add : ℕ → ℕ → ℕ → Option ℕ
checked_add m a b = if ltb (a + b) m then some (a + b) else none

abbrev pub checked_mul : ℕ → ℕ → ℕ → Option ℕ
checked_mul m a b = if ltb (a * b) m then some (a * b) else none

-- `checked_sub` of an unsigned type
abbrev pub checked_sub : ℕ → ℕ → Option ℕ
checked_sub a b = if leb b a then some (a - b) else none

-- The values of a signed type that has `half` values below zero.
abbrev pub is_signed : ℕ → ℤ → Bool
is_signed half z = ltb (pos_part z) half && leb (neg_part z) half

abbrev pub i64_half : ℕ
i64_half = 2 ^ 63

abbrev pub i128_half : ℕ
i128_half = 2 ^ 127

abbrev pub checked_add_i128 : ℤ → ℤ → Option ℤ
checked_add_i128 a b = let z = a +ℤ b in if is_signed i128_half z then some z else none

abbrev pub checked_sub_i128 : ℤ → ℤ → Option ℤ
checked_sub_i128 a b = let z = a -ℤ b in if is_signed i128_half z then some z else none

-- `i128::try_from` of an unsigned value
abbrev pub i128_of_unsigned : ℕ → Option ℤ
i128_of_unsigned n = if ltb n i128_half then some (pos n) else none

-- `i64::checked_abs`: the absolute value of `i64::MIN` is no i64.
abbrev pub checked_abs_i64 : ℤ → Option ℕ
checked_abs_i64 (pos n) = some n
checked_abs_i64 (negsuc n) = if ltb (n + 1) i64_half then some (n + 1) else none
