-- ===== src/Risk/Index/Update.antt =====
-- What a write to the table does to the keys that it holds.
use deterministic_exchange_r.Prelude.{
  ℕ, ◌+◌, ◌-◌, ◌<◌, ◌≡◌, ◌≢◌, refl, sym, ◌∙◌, ◌⊎◌, inl, inr, some, ==_iff, ltb, ◌==◌, if◌then◌else◌,
  arith, length-set, get_or-set, set, ap, true, false,
}
use deterministic_exchange_r.Prelude.Words.{u64_mod}
use deterministic_exchange_r.Prelude.Outcome.{ok}
use native.Mathlib.Decide.{ℕ_discrete}
use deterministic_exchange_r.Risk.Index.{
  IndexSlot, empty, occupied, Table, capacity, slot, insert, lookup,
}
use deterministic_exchange_r.Risk.Index.Find.{
  HoldsAt, IsValid, reach, find_slot-cases, lookup-HoldsAt, lookup-none,
}
use deterministic_exchange_r.Risk.Index.Insert.{Absent, Landing, insert_from-Landing}

module _ (t : Table) (p : ℕ) (x : IndexSlot) (inside : p < capacity t) where
  pub slot-set_self : slot (set t p x) p ≡ x
  slot-set_self = get_or-set t p p x empty inside ∙ rw ((==_iff p p).1 refl)

  pub slot-set_ne : (q : ℕ) → p ≢ q → slot (set t p x) q ≡ slot t q
  slot-set_ne q h = get_or-set t p q x empty inside ∙ ground arith

pub reach-set : (t : Table) (p key q : ℕ) (x : IndexSlot) → reach (set t p x) key q ≡ reach t key q
reach-set t p key q x = rw (length-set t p x)

module _ (t : Table) (p key value : ℕ) (inside : p < capacity t) where
  -- the table with the entry
  abbrev with_entry : Table
  with_entry = set t p (occupied key value)

  pub HoldsAt-set :
      (k w q : ℕ)
      → HoldsAt (set t p (occupied key value)) k w q
      → (p ≡ q) × (k ≡ key) × (w ≡ value) ⊎ (p ≢ q) × HoldsAt t k w q
  HoldsAt-set k w q h = elim (ℕ_discrete p q) [
    | yes e ↦
        let stored : occupied key value ≡ occupied k w =
          sym (slot-set_self t p (occupied key value) inside) ∙ ap (slot with_entry) e ∙ h.entry in
        inl (e, cc, cc)
    | no e ↦ inr (
      e,
      record {
        inside = omega (arith, h.inside, length-set t p (occupied key value));
        entry = sym (slot-set_ne t p (occupied key value) inside q e) ∙ h.entry;
      },
    )
  ]

  pub HoldsAt-self : HoldsAt with_entry key value p
  HoldsAt-self = record {
    inside = omega (arith, length-set t p (occupied key value));
    entry = slot-set_self t p (occupied key value) inside;
  }

  pub HoldsAt-other : (k w q : ℕ) → p ≢ q → HoldsAt t k w q → HoldsAt with_entry k w q
  HoldsAt-other k w q e h = record {
    inside = omega (arith, h.inside, length-set t p (occupied key value));
    entry = slot-set_ne t p (occupied key value) inside q e ∙ h.entry;
  }

  -- A write never makes a gap.
  pub set_not_empty : (q : ℕ) → (p ≢ q → slot t q ≢ empty) → slot with_entry q ≢ empty
  set_not_empty q h gap = elim (ℕ_discrete p q) [
    | yes e ↦
        let stored : occupied key value ≡ empty =
          sym (slot-set_self t p (occupied key value) inside) ∙ ap (slot with_entry) e ∙ gap in
        cc
    | no e ↦ h e (sym (slot-set_ne t p (occupied key value) inside q e) ∙ gap)
  ]

module _ (t : Table) (p key value : ℕ) (landing : Landing t key p) (absent : Absent t key)
    (valid : IsValid t) (positive : 0 < value) where
  -- An absent key can be written at its landing.
  set-IsValid : IsValid (set t p (occupied key value))
  set-IsValid =
      let size = length-set t p (occupied key value) in
      let split = HoldsAt-set t p key value landing.inside in
      record {
        small = omega (arith, size, valid.small);
        no_gap = λ r q k w h q_in d.
            let q_in' : q < capacity t = omega (arith, size) in
            let d' : reach t k q < reach t k r =
              rw (reach-set t p k q (occupied key value), reach-set t p k r (occupied key value)) at
                d in
            set_not_empty t p key value landing.inside q (λ ne. elim (split k w r h) [
              | inl (e, k_eq, _) ↦ landing.first q q_in' (rw (k_eq, ← e) at d')
              | inr (_, old) ↦ valid.no_gap r q k w old q_in' d'
            ]);
        unique = λ r q k v w h g. elim (split k v r h) [
          | inl (e, k_eq, _) ↦ elim (split k w q g) [
            | inl (e', _, _) ↦ sym e ∙ e'
            | inr (_, old) ↦ absurd (absent q w (rw k_eq at old))
          ]
          | inr (_, old) ↦ elim (split k w q g) [
            | inl (e', k_eq, _) ↦ absurd (absent r v (rw k_eq at old))
            | inr (_, old') ↦ valid.unique r q k v w old old'
          ]
        ];
        positive = λ r k w h. elim (split k w r h) [
          | inl (_, _, w_eq) ↦ omega (arith, w_eq)
          | inr (_, old) ↦ valid.positive r k w old
        ];
      }

-- An absent key goes into a valid table that has a free slot, if its value has a u64 successor: it is
-- written at the first free position from its home, and the table stays valid.
pub insert_lem :
    (t : Table) (key value hole : ℕ)
    → IsValid t
    → Absent t key
    → value + 1 < u64_mod
    → hole < capacity t
    → slot t hole ≡ empty
    → (p : ℕ) × Landing t key p
      × (insert t key value ≡ (ok p, set t p (occupied key (value + 1))))
      × IsValid (set t p (occupied key (value + 1)))
unfolding insert
insert_lem t key value hole valid absent fits inside vacant =
    let (p, landing, result) =
      insert_from-Landing t key (value + 1) valid.small absent (capacity t) 0 hole (omega arith)
        inside vacant (omega arith) (λ q h d. absurd (omega arith)) in
    let some_room : (capacity t == 0) ≡ false = ground arith in
    let fits' : ltb (value + 1) u64_mod ≡ true = ground arith in
    (
      p,
      landing,
      rw (insert, some_room, fits') result,
      set-IsValid t p key (value + 1) landing absent valid (omega arith),
    )

-- After an absent key, whose value has a u64 successor, has been inserted into a valid table that has
-- a free slot, lookups find the new key's value, and for every other key what they found before.
pub lookup-insert :
    (t : Table) (key value hole k : ℕ)
    → IsValid t
    → Absent t key
    → value + 1 < u64_mod
    → hole < capacity t
    → slot t hole ≡ empty
    → lookup (insert t key value).1 k ≡ (if k == key then some value else lookup t k)
lookup-insert t key value hole k valid absent fits inside vacant =
    let (p, landing, result, valid') =
      insert_lem t key value hole valid absent fits inside vacant in
    let t' = set t p (occupied key (value + 1)) in
    rw result (elim (ℕ_discrete k key) [
      | yes e ↦
          let found =
            lookup-HoldsAt t' key (value + 1) p valid'
              (HoldsAt-self t p key (value + 1) landing.inside) in
          let back : value + 1 - 1 ≡ value = omega arith in
          rw (e, found, (==_iff key key).1 refl, back)
      | no e ↦
          let differs : (k == key) ≡ false = ground arith in
          rw differs (elim (find_slot-cases t k valid) [
            | inl (q, w, held) ↦
                let apart : p ≢ q =
                  λ same. let clash = rw (← same) at held.entry in let gap = landing.vacant in cc in
                lookup-HoldsAt t' k w q valid'
                  (HoldsAt-other t p key (value + 1) landing.inside k w q apart held)
                ∙ sym (lookup-HoldsAt t k w q valid held)
            | inr none_held ↦
                lookup-none t' k valid' (λ q w h.
                  elim (HoldsAt-set t p key (value + 1) landing.inside k w q h) [
                    | inl (_, same, _) ↦ e same
                    | inr (_, old) ↦ none_held q w old
                  ])
                ∙ sym (lookup-none t k valid none_held)
          ])
    ])
