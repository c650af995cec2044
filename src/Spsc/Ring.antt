-- ===== src/Spsc/Ring.antt =====
-- Positions that wrap around, as positions that do not.
use native.Mathlib.Nat.{
  mod-lt, mod-eq_of_lt, mod-eq-sub-mod, mod-add-mod, mod-mod_of_dvd, add-mod_right,
  dvd_of_mod-eq-zero,
}
use deterministic_exchange_r.Prelude.{
  ℕ, ◌+◌, ◌-◌, ◌%◌, ◌≤◌, ◌<◌, ◌≡◌, ◌≢◌, sym, ap, ◌∙◌, leb, ◌⊎◌, Bool-cases, inl, inr, arith,
}
use deterministic_exchange_r.Prelude.Words.{u64_mod}
use deterministic_exchange_r.Spsc.{wrapping_add, wrapping_sub}

-- what a position and a later one, less than a turn ahead, are modulo the turn
turn :
    (m c d : ℕ)
    → 0 < m
    → d < m
    → ((c % m + d < m) × ((c + d) % m ≡ c % m + d))
      ⊎ ((m ≤ c % m + d) × ((c + d) % m ≡ c % m + d - m))
turn m c d pos below =
    let r = mod-lt c pos in
    let whole = sym (mod-add-mod c m d) in
    elim (Bool-cases (leb m (c % m + d))) [
      | inl past ↦
          let le : m ≤ c % m + d = ground (arith, past) in
          inr (le, whole ∙ mod-eq-sub-mod le ∙ mod-eq_of_lt (omega (arith, r, below, le)))
      | inr within ↦
          let lt : c % m + d < m = ground (arith, within) in inl (lt, whole ∙ mod-eq_of_lt lt)
    ]

pub wrapping_sub_lem :
    (c t : ℕ) → c ≤ t → t < c + u64_mod → wrapping_sub (t % u64_mod) (c % u64_mod) ≡ t - c
wrapping_sub_lem c t le below =
    let d = t - c in
    let same : t ≡ c + d = omega (arith, le) in
    let small : d < u64_mod = omega (arith, le, below) in
    let r = mod-lt c {m = u64_mod} (omega arith) in
    let at : t % u64_mod ≡ (c + d) % u64_mod = ap (λ k. k % u64_mod) same in
    elim (turn u64_mod c d (omega arith) small) [
      | inl (within, sum) ↦
          let shift : t % u64_mod + u64_mod - c % u64_mod ≡ d + u64_mod =
            omega (arith, at, sum, r) in
          ap (λ k. k % u64_mod) shift ∙ add-mod_right d u64_mod ∙ mod-eq_of_lt small
      | inr (past, sum) ↦
          let shift : t % u64_mod + u64_mod - c % u64_mod ≡ d = omega (arith, at, sum, r, past) in
          ap (λ k. k % u64_mod) shift ∙ mod-eq_of_lt small
    ]

pub wrapping_add_lem : (t : ℕ) → wrapping_add (t % u64_mod) 1 ≡ (t + 1) % u64_mod
wrapping_add_lem t = mod-add-mod t u64_mod 1

-- Two positions that are less than a turn apart have different slots.
pub slots_differ : (n i j : ℕ) → i < j → j < i + n → i % n ≢ j % n
slots_differ n i j lt below same =
    let d = j - i in
    let j_is : j ≡ i + d = omega (arith, lt) in
    let r = mod-lt i {m = n} (omega (arith, lt, below)) in
    let at : j % n ≡ (i + d) % n = ap (λ k. k % n) j_is in
    elim (turn n i d (omega (arith, lt, below)) (omega (arith, lt, below))) [
      | inl (within, sum) ↦ omega (arith, same, at, sum, lt)
      | inr (past, sum) ↦ omega (arith, same, at, sum, past, below, lt)
    ]

-- A position that wraps around has the slot of the one that does not.
pub slot_of : (n t : ℕ) → u64_mod % n ≡ 0 → t % u64_mod % n ≡ t % n
slot_of n t divides = mod-mod_of_dvd n t (dvd_of_mod-eq-zero n divides)
