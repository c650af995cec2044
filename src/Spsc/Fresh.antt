-- ===== src/Spsc/Fresh.antt =====
-- A new ring, split into its two ends, holds nothing.
use native.Mathlib.Nat.{
  pow-suc, two-pow-succ, one-le-pow, pow-le-pow_right, mul_assoc, mul-mod_right, mod-lt,
}
use deterministic_exchange_r.Prelude.{
  ℕ, zero, suc, ◌+◌, ◌-◌, ◌*◌, ◌%◌, ◌^◌, ◌≤◌, ◌<◌, ◌≡◌, refl, ap, ◌∙◌, [], true, Option, none, some,
  ◌==◌, Bool-cases, inl, inr, arith, replicate, length, length-replicate, get_elem?,
}
use deterministic_exchange_r.Prelude.Words.{u64_mod}
use deterministic_exchange_r.Prelude.Outcome.{ok}
use deterministic_exchange_r.Spsc.{SpscQueue, is_power_below, try_new, split}
use deterministic_exchange_r.Spsc.Holds.{Positions, Holds}
use deterministic_exchange_r.Spsc.Endpoints.{equal}

-- A power of two up to the turn divides it.
turn_is_multiple : (d k : ℕ) → k + d ≡ 64 → (m : ℕ) × (u64_mod ≡ 2 ^ k * m)
turn_is_multiple zero k e = let last : 64 ≡ k = omega (arith, e) in (1, rw (← last) refl)
turn_is_multiple (suc d) k e =
    let (m, whole) = turn_is_multiple d (suc k) (omega (arith, e)) in
    (2 * m, whole ∙ ap (λ x. x * m) (pow-suc 2 k) ∙ mul_assoc (2 ^ k) 2 m)

power-Divides : (k : ℕ) → k < 64 → (u64_mod % 2 ^ k ≡ 0) × (0 < 2 ^ k) × (2 ^ k < u64_mod)
power-Divides k below =
    let (m, whole) = turn_is_multiple (64 - k) k (omega (arith, below)) in
    let positive = one-le-pow k 2 (omega arith) in
    let double = two-pow-succ k in
    let within : 2 ^ suc k ≤ 2 ^ 64 =
      pow-le-pow_right {n = 2} (omega arith) {i = suc k} {j = 64} (omega (arith, below)) in
    (
      ap (λ x. x % 2 ^ k) whole ∙ mul-mod_right (2 ^ k) m,
      positive,
      omega (arith, positive, double, within),
    )

is_power_below-Divides :
    (k n : ℕ) → k ≤ 64 → is_power_below k n ≡ true → (u64_mod % n ≡ 0) × (0 < n) × (n < u64_mod)
is_power_below-Divides zero n le h = cc
is_power_below-Divides (suc k) n le h = elim (Bool-cases (n == 2 ^ k)) [
  | inl same ↦
      let here : n ≡ 2 ^ k = equal n (2 ^ k) same in rw here (power-Divides k (omega (arith, le)))
  | inr other ↦
      let smaller = rw other at h in is_power_below-Divides k n (omega (arith, le)) smaller
]

get_elem?-replicate {ℓ} :
    {A : Type ℓ} (n i : ℕ) (a : A) → i < n → get_elem? (replicate n a) i ≡ some a
get_elem?-replicate zero i a h = absurd (omega (arith, h))
get_elem?-replicate (suc n) zero a h = refl
get_elem?-replicate (suc n) (suc i) a h = get_elem?-replicate n i a (omega (arith, h))

abbrev origin : Positions
origin = record { head = 0; tail = 0; seen_head = 0; seen_tail = 0 }

abbrev fresh : {A : Type 0} → ℕ → SpscQueue A
fresh n = record { head = 0; tail = 0; slots = replicate n none }

-- A new ring of a power of two's capacity, split into its two ends, holds no values.
try_new-Holds :
    {A : Type 0} (n : ℕ)
    → is_power_below 64 n ≡ true
    → (q : SpscQueue A) × (try_new n ≡ ok q) × Holds q (split q).0 (split q).1 origin []
unfolding try_new split
try_new-Holds {A = A} n power =
    let (divides, positive, small) = is_power_below-Divides 64 n (omega arith) power in
    let size = length-replicate n none in
    (
      fresh n,
      rw (try_new, power) refl,
      record {
        divides = ap (λ k. u64_mod % k) size ∙ divides;
        small = omega (arith, size, small);
        head = refl;
        tail = refl;
        producer_tail = refl;
        producer_head = refl;
        consumer_head = refl;
        consumer_tail = refl;
        seen_head = omega arith;
        seen_tail = omega arith;
        published = omega arith;
        bounded = omega arith;
        stored = record {
          sized = refl;
          counted = refl;
          live = λ i x at. cc;
          vacant = λ j after below.
              let k = length (replicate {A = Option A} n none) in
              let inside : j % k < k = mod-lt j {m = k} (omega (arith, size, positive)) in
              get_elem?-replicate n (j % k) none (omega (arith, size, inside));
        };
      },
    )
