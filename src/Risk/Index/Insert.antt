-- ===== src/Risk/Index/Insert.antt =====
-- `insert` on a table without gaps.
use deterministic_exchange_r.Prelude.{
  ℕ, zero, suc, ◌+◌, ◌≤◌, ◌<◌, ◌≡◌, ◌≢◌, sym, ◌∙◌, inl, inr, Bool-cases, ==_iff, ltb, ◌==◌, arith,
  set, ap, true, false,
}
use deterministic_exchange_r.Prelude.Words.{u32_mod}
use deterministic_exchange_r.Prelude.Outcome.{ok}
use native.Mathlib.Decide.{dec_lt}
use deterministic_exchange_r.Risk.Index.{
  empty, occupied, Table, capacity, slot, probe_start, advance, insert_from,
}
use deterministic_exchange_r.Risk.Index.Arc.{
  probe_start-lt, advance-probe_distance, probe_distance-advance, advance-lt, probe_distance-lt,
}
use deterministic_exchange_r.Risk.Index.Find.{HoldsAt, reach, slot-cases}

-- A key is stored nowhere.
abbrev pub Absent : Table → ℕ → Type 0
Absent t key = (p value : ℕ) → HoldsAt t key value p → ⊥

-- Where an insertion goes: a free position that no free position precedes on the way from home.
pub record Landing (t : Table) (key p : ℕ) : Type 0 where
  pub inside : p < capacity t
  pub vacant : slot t p ≡ empty
  pub first : (q : ℕ) → q < capacity t → reach t key q < reach t key p → slot t q ≢ empty

-- Two positions that are as far from home are one.
pub reach-injective :
    (t : Table) (key p q : ℕ)
    → capacity t ≤ u32_mod
    → p < capacity t
    → q < capacity t
    → reach t key p ≡ reach t key q
    → p ≡ q
reach-injective t key p q small hp hq e =
    let home = probe_start (capacity t) key in
    let home_in = probe_start-lt (capacity t) key (omega arith) in
    sym (advance-probe_distance (capacity t) home p home_in hp small)
    ∙ ap (advance (capacity t) home) e
    ∙ advance-probe_distance (capacity t) home q home_in hq small

-- Past an occupied position the search for a free one goes on.
module _ (t : Table) (key p k v : ℕ) (small : capacity t ≤ u32_mod) (p_in : p < capacity t) where
  moves_on :
      (hole : ℕ)
      → slot t p ≡ occupied k v
      → hole < capacity t
      → slot t hole ≡ empty
      → reach t key p ≤ reach t key hole
      → reach t key p + 1 ≤ reach t key hole
  moves_on hole e inside vacant ahead = elim (dec_lt (reach t key p) (reach t key hole)) [
    | yes h ↦ omega arith
    | no h ↦
        let same = reach-injective t key p hole small p_in inside (omega arith) in
        let clash : slot t hole ≡ occupied k v = ap (slot t) (sym same) ∙ e in cc
  ]

  still_taken :
      slot t p ≡ occupied k v
      → ((q : ℕ) → q < capacity t → reach t key q < reach t key p → slot t q ≢ empty)
      → (q : ℕ) → q < capacity t
      → reach t key q < reach t key p + 1
      → slot t q ≢ empty
  still_taken e taken q inside near = elim (dec_lt (reach t key q) (reach t key p)) [
    | yes h ↦ taken q inside h
    | no h ↦
        let same = reach-injective t key q p small inside p_in (omega arith) in
        let held : slot t q ≡ occupied k v = ap (slot t) same ∙ e in λ gap. cc
  ]

module _ (t : Table) (key value : ℕ) (small : capacity t ≤ u32_mod) (absent : Absent t key) where
  abbrev pub home : ℕ
  home = probe_start (capacity t) key

  key_differs : (p k v : ℕ) → p < capacity t → slot t p ≡ occupied k v → (k == key) ≡ false
  key_differs p k v inside e = elim (Bool-cases (k == key)) [
    | inl same ↦ absurd (
        absent p v
          (record { inside = inside; entry = e ∙ ap (λ x. occupied x v) ((==_iff k key).0 same) }))
    | inr other ↦ other
  ]

  -- The loop lands on the first free position, if the ones behind it are taken.
  pub insert_from-Landing :
      (rounds offset hole : ℕ)
      → offset + rounds ≡ capacity t
      → hole < capacity t
      → slot t hole ≡ empty
      → offset ≤ reach t key hole
      → ((q : ℕ) → q < capacity t → reach t key q < offset → slot t q ≢ empty)
      → (p : ℕ) × Landing t key p
        × (insert_from t key value home rounds offset ≡ (ok p, set t p (occupied key value)))
  unfolding insert_from
  insert_from-Landing zero offset hole total inside vacant ahead taken = absurd (
      omega (
        arith,
        probe_distance-lt (capacity t) home hole (probe_start-lt (capacity t) key (omega arith))
            inside,
      ))
  insert_from-Landing (suc rounds) offset hole total inside vacant ahead taken =
      let home_in = probe_start-lt (capacity t) key (omega arith) in
      let p = advance (capacity t) home offset in
      let p_in : p < capacity t = advance-lt (capacity t) home offset home_in (omega arith) small in
      let p_at : reach t key p ≡ offset =
        probe_distance-advance (capacity t) home offset home_in (omega arith) small in
      let later = insert_from-Landing rounds (offset + 1) hole (omega arith) inside vacant in
      elim (slot-cases (slot t p)) [
        | inl gap ↦
            let small_p : ltb p u32_mod ≡ true = ground (arith, p_in, small) in
            (
              p,
              record {
                inside = p_in;
                vacant = gap;
                first = λ q h d. taken q h (omega (arith, p_at));
              },
              rw (insert_from, gap, small_p),
            )
        | inr (k, v, e) ↦
            let other = key_differs p k v p_in e in
            let ahead' =
              moves_on t key p k v small p_in hole e inside vacant (omega (arith, p_at)) in
            let taken' =
              still_taken t key p k v small p_in e (λ q h d. taken q h (omega (arith, p_at))) in
            let (q, landing, result) =
              later (omega (arith, p_at)) (λ q h d. taken' q h (omega (arith, p_at))) in
            (q, landing, rw (insert_from, e, other) result)
      ]
