-- ===== src/Risk/Index/Find.antt =====
-- `find_slot` and `lookup` on a table without gaps.
use deterministic_exchange_r.Prelude.{
  ℕ, zero, suc, ◌+◌, ◌-◌, ◌≤◌, ◌<◌, ◌≡◌, ◌≢◌, refl, sym, ◌∙◌, subst, ◌⊎◌, inl, inr, none, some,
  Bool-cases, Option-cases, ==_iff, ◌==◌, arith, ap, false,
}
use deterministic_exchange_r.Prelude.Words.{u32_mod}
use native.Mathlib.Decide.{dec_lt}
use deterministic_exchange_r.Risk.Index.{
  IndexSlot, empty, occupied, Table, capacity, slot, probe_start, probe_distance, advance,
  find_from, find_slot, lookup,
}
use deterministic_exchange_r.Risk.Index.Arc.{
  probe_start-lt, advance-probe_distance, probe_distance-advance, advance-lt, probe_distance-lt,
}

-- The position p of the table holds the key with the value.
pub record HoldsAt (t : Table) (key value p : ℕ) : Type 0 where
  pub inside : p < capacity t
  pub entry : slot t p ≡ occupied key value

-- how far a position lies from a key's home
abbrev pub reach : Table → ℕ → ℕ → ℕ
reach t key p = probe_distance (capacity t) (probe_start (capacity t) key) p

-- Between a key's home and its position every slot is occupied; a key has one position; a stored
-- value is not zero.
pub record IsValid (t : Table) : Type 0 where
  pub small : capacity t ≤ u32_mod
  pub no_gap :
      (p q key value : ℕ)
      → HoldsAt t key value p
      → q < capacity t
      → reach t key q < reach t key p
      → slot t q ≢ empty
  pub unique : (p q key v w : ℕ) → HoldsAt t key v p → HoldsAt t key w q → p ≡ q
  pub positive : (p key value : ℕ) → HoldsAt t key value p → 0 < value

pub slot-cases :
    (s : IndexSlot) → (s ≡ empty) ⊎ ((key : ℕ) × (value : ℕ) × (s ≡ occupied key value))
slot-cases empty = inl refl
slot-cases (occupied key value) = inr (key, value, refl)

module _ (t : Table) (key : ℕ) (room : 0 < capacity t) (valid : IsValid t) where
  abbrev home : ℕ
  home = probe_start (capacity t) key

  abbrev at_offset : ℕ → ℕ
  at_offset offset = advance (capacity t) home offset

  reach-at_offset : (offset : ℕ) → offset < capacity t → reach t key (at_offset offset) ≡ offset
  reach-at_offset offset h =
      probe_distance-advance (capacity t) home offset (probe_start-lt (capacity t) key room) h
        valid.small

  at_offset-reach : (p : ℕ) → p < capacity t → at_offset (reach t key p) ≡ p
  at_offset-reach p h =
      advance-probe_distance (capacity t) home p (probe_start-lt (capacity t) key room) h
        valid.small

  at_offset-lt : (offset : ℕ) → offset < capacity t → at_offset offset < capacity t
  at_offset-lt offset h =
      advance-lt (capacity t) home offset (probe_start-lt (capacity t) key room) (omega arith)
        valid.small

  find_from-hit :
      (p value rounds offset : ℕ)
      → HoldsAt t key value p
      → offset + rounds ≡ capacity t
      → offset ≤ reach t key p
      → find_from t key home rounds offset ≡ some p
  unfolding find_from
  find_from-hit p value zero offset held total reached = absurd (
      omega (
        arith,
        probe_distance-lt (capacity t) home p (probe_start-lt (capacity t) key room) held.inside,
      ))
  find_from-hit p value (suc rounds) offset held total reached =
      let below : offset < capacity t = omega arith in
      let inside = at_offset-lt offset below in
      let rest = find_from-hit p value rounds (offset + 1) held (omega arith) in
      elim (dec_lt offset (reach t key p)) [
        | yes before ↦ elim (slot-cases (slot t (at_offset offset))) [
          | inl gap ↦ absurd (
              valid.no_gap p (at_offset offset) key value held inside
                (rw (reach-at_offset offset below) before) gap)
          | inr (k, v, e) ↦ elim (Bool-cases (k == key)) [
            | inl same ↦
                let there : HoldsAt t key v (at_offset offset) = record {
                  inside = inside;
                  entry = e ∙ ap (λ x. occupied x v) ((==_iff k key).0 same);
                } in
                let meet = valid.unique (at_offset offset) p key v value there held in
                absurd (omega (arith, reach-at_offset offset below, ap (reach t key) meet))
            | inr other ↦ rw (find_from, e, other) (rest (omega arith))
          ]
        ]
        | no reached_it ↦
            let here : reach t key p ≡ offset = omega arith in
            let at_p : at_offset offset ≡ p =
              ap at_offset (sym here) ∙ at_offset-reach p held.inside in
            rw (find_from, at_p, held.entry, (==_iff key key).1 refl) (ap some at_p)
      ]

  find_from-miss :
      (rounds offset : ℕ)
      → ((p value : ℕ) → HoldsAt t key value p → ⊥)
      → offset + rounds ≡ capacity t
      → find_from t key home rounds offset ≡ none
  unfolding find_from
  find_from-miss zero offset absent total = refl
  find_from-miss (suc rounds) offset absent total =
      let inside = at_offset-lt offset (omega arith) in
      let rest = find_from-miss rounds (offset + 1) absent (omega arith) in
      elim (slot-cases (slot t (at_offset offset))) [
        | inl gap ↦ rw (find_from, gap)
        | inr (k, v, e) ↦ elim (Bool-cases (k == key)) [
          | inl same ↦ absurd (
              absent (at_offset offset) v (record {
                inside = inside;
                entry = e ∙ ap (λ x. occupied x v) ((==_iff k key).0 same);
              }))
          | inr other ↦ rw (find_from, e, other) rest
        ]
      ]

room_of_HoldsAt : (t : Table) {key value p : ℕ} → HoldsAt t key value p → 0 < capacity t
room_of_HoldsAt t h = omega (arith, h.inside)

-- A stored key is found where it stands.
pub find_slot-HoldsAt :
    (t : Table) (key value p : ℕ) → IsValid t → HoldsAt t key value p → find_slot t key ≡ some p
unfolding find_slot
find_slot-HoldsAt t key value p valid held =
    let room = room_of_HoldsAt t held in
    let some_room : (capacity t == 0) ≡ false = ground arith in
    rw some_room
      (find_from-hit t key room valid p value (capacity t) 0 held (omega arith) (omega arith))

pub find_slot-none :
    (t : Table) (key : ℕ)
    → IsValid t
    → ((p value : ℕ) → HoldsAt t key value p → ⊥)
    → find_slot t key ≡ none
unfolding find_slot
find_slot-none t key valid absent = elim (Bool-cases (capacity t == 0)) [
  | inl no_room ↦ rw no_room
  | inr room ↦
      rw room (find_from-miss t key (ground arith) valid (capacity t) 0 absent (omega arith))
]

-- `lookup` returns the slot number that is stored with the key, and nothing for any other key.
pub lookup-HoldsAt :
    (t : Table) (key value p : ℕ)
    → IsValid t
    → HoldsAt t key value p
    → lookup t key ≡ some (value - 1)
unfolding lookup
lookup-HoldsAt t key value p valid held =
    rw (lookup, find_slot-HoldsAt t key value p valid held, held.entry)

pub lookup-none :
    (t : Table) (key : ℕ)
    → IsValid t
    → ((p value : ℕ) → HoldsAt t key value p → ⊥)
    → lookup t key ≡ none
unfolding lookup
lookup-none t key valid absent = rw (lookup, find_slot-none t key valid absent)

find_from_sound :
    (t : Table) (key rounds offset p : ℕ)
    → 0 < capacity t
    → capacity t ≤ u32_mod
    → offset + rounds ≡ capacity t
    → find_from t key (probe_start (capacity t) key) rounds offset ≡ some p
    → (value : ℕ) × HoldsAt t key value p
unfolding find_from
find_from_sound t key zero offset p room small total e = cc
find_from_sound t key (suc rounds) offset p room small total e =
    let start = probe_start (capacity t) key in
    let at = advance (capacity t) start offset in
    let inside =
      advance-lt (capacity t) start offset (probe_start-lt (capacity t) key room) (omega arith)
        small in
    elim (slot-cases (slot t at)) [
      | inl gap ↦ let bad = rw (find_from, gap) at e in cc
      | inr (k, v, entry) ↦ elim (Bool-cases (k == key)) [
        | inl same ↦
            let hit : some at ≡ some p = rw (find_from, entry, same) at e in
            let here : HoldsAt t key v at = record {
              inside = inside;
              entry = entry ∙ ap (λ x. occupied x v) ((==_iff k key).0 same);
            } in
            (v, subst (HoldsAt t key v) (cc) here)
        | inr other ↦
            find_from_sound t key rounds (offset + 1) p room small (omega arith)
              (rw (find_from, entry, other) at e)
      ]
    ]

-- A key is found where it is stored, or is stored nowhere.
pub find_slot-cases :
    (t : Table) (key : ℕ)
    → IsValid t
    → ((p : ℕ) × (value : ℕ) × HoldsAt t key value p) ⊎ ((p value : ℕ) → HoldsAt t key value p → ⊥)
unfolding find_slot
find_slot-cases t key valid = elim (Option-cases (find_slot t key)) [
  | inl missed ↦ inr (λ p value h. let hit = find_slot-HoldsAt t key value p valid h in cc)
  | inr (p, found) ↦ elim (Bool-cases (capacity t == 0)) [
    | inl no_room ↦ let bad = rw (find_slot, no_room) at found in cc
    | inr room ↦
        let (value, held) =
          find_from_sound t key (capacity t) 0 p (ground arith) valid.small (omega arith)
            (rw (find_slot, room) at found) in
        inl (p, value, held)
  ]
]
