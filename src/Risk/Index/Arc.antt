-- ===== src/Risk/Index/Arc.antt =====
-- Distances round the table. With positions below the capacity, every step is a sum or a difference.
use native.Mathlib.Nat.{mod-lt, mod-eq_of_lt, mod-eq-sub-mod}
use native.Mathlib.Decide.{dec_lt}
use deterministic_exchange_r.Prelude.{
  ℕ, ◌+◌, ◌-◌, ◌%◌, ◌≤◌, ◌<◌, ◌≡◌, ◌≢◌, ltb, if◌then◌else◌, arith, ◌∙◌,
}
use deterministic_exchange_r.Prelude.Words.{u32_mod, u64_mod}
use deterministic_exchange_r.Risk.Index.{probe_start, probe_distance, advance}

pub probe_start-lt : (cap key : ℕ) → 0 < cap → probe_start cap key < cap
unfolding probe_start
probe_start-lt cap key h = mod-lt _ h

-- `advance` does not wrap a usize, and goes round at the capacity.
pub advance_lem :
    (cap start offset : ℕ)
    → start < cap
    → offset ≤ cap
    → cap ≤ u32_mod
    → advance cap start offset
      ≡ (if ltb (start + offset) cap then start + offset else start + offset - cap)
unfolding advance
advance_lem cap start offset h k c =
    let no_wrap : (start + offset) % u64_mod ≡ start + offset = omega arith in
    elim (dec_lt (start + offset) cap) [
      | yes p ↦ rw (no_wrap, mod-eq_of_lt p) (ground arith)
      | no p ↦
          let back : (start + offset) % cap ≡ start + offset - cap =
            mod-eq-sub-mod {n = start + offset} {m = cap} (omega arith)
            ∙ mod-eq_of_lt {n = start + offset - cap} {m = cap} (omega arith) in
          rw (no_wrap, back) (ground arith)
    ]

-- `probe_distance` undoes `advance`.
pub advance-probe_distance :
    (cap home p : ℕ)
    → home < cap
    → p < cap
    → cap ≤ u32_mod
    → advance cap home (probe_distance cap home p) ≡ p
unfolding probe_distance
advance-probe_distance cap home p h k c = ground (
  arith,
  advance_lem cap home (p - home) h (omega arith) c,
  advance_lem cap home (cap - (home - p)) h (omega arith) c,
)

pub probe_distance-advance :
    (cap home d : ℕ)
    → home < cap
    → d < cap
    → cap ≤ u32_mod
    → probe_distance cap home (advance cap home d) ≡ d
unfolding probe_distance
probe_distance-advance cap home d h k c = ground (arith, advance_lem cap home d h (omega arith) c)

pub advance-lt :
    (cap start offset : ℕ)
    → start < cap
    → offset ≤ cap
    → cap ≤ u32_mod
    → advance cap start offset < cap
advance-lt cap start offset h k c = ground (arith, advance_lem cap start offset h k c)

pub probe_distance-lt : (cap home p : ℕ) → home < cap → p < cap → probe_distance cap home p < cap
unfolding probe_distance
probe_distance-lt cap home p h k = ground arith

-- A position on the way to another splits the distance.
pub probe_distance-split :
    (cap home p q : ℕ)
    → home < cap
    → p < cap
    → q < cap
    → probe_distance cap home p ≤ probe_distance cap home q
    → probe_distance cap home q ≡ probe_distance cap home p + probe_distance cap p q
unfolding probe_distance
probe_distance-split cap home p q h hp hq d = ground arith

pub probe_distance-sum :
    (cap home p q : ℕ)
    → home < cap
    → p < cap
    → q < cap
    → probe_distance cap home p + probe_distance cap p q < cap
    → probe_distance cap home q ≡ probe_distance cap home p + probe_distance cap p q
unfolding probe_distance
probe_distance-sum cap home p q h hp hq d = ground arith

pub probe_distance-injective :
    (cap home p q : ℕ)
    → home < cap
    → p < cap
    → q < cap
    → probe_distance cap home p ≡ probe_distance cap home q
    → p ≡ q
unfolding probe_distance
probe_distance-injective cap home p q h hp hq e = ground arith

pub probe_distance_self : (cap p : ℕ) → probe_distance cap p p ≡ 0
unfolding probe_distance
probe_distance_self cap p = ground arith

-- One step on, unless it comes round to the start.
pub probe_distance-next :
    (cap start p : ℕ)
    → start < cap
    → p < cap
    → cap ≤ u32_mod
    → probe_distance cap start p + 1 < cap
    → probe_distance cap start (advance cap p 1) ≡ probe_distance cap start p + 1
unfolding probe_distance
probe_distance-next cap start p h hp c d = ground (arith, advance_lem cap p 1 hp (omega arith) c)

pub probe_distance-toward :
    (cap p q : ℕ)
    → p < cap
    → q < cap
    → cap ≤ u32_mod
    → p ≢ q
    → probe_distance cap (advance cap p 1) q + 1 ≡ probe_distance cap p q
unfolding probe_distance
probe_distance-toward cap p q hp hq c ne = ground (arith, advance_lem cap p 1 hp (omega arith) c)
