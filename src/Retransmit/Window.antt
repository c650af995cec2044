-- ===== src/Retransmit/Window.antt =====
-- The buffer as a window of consecutively numbered payloads.
use deterministic_exchange_r.Prelude.{
  ℕ, zero, suc, ◌+◌, ◌-◌, ◌≤◌, ◌<◌, ◌≡◌, refl, List, [], ◌∷◌, ◌++◌, Bool-cases, inl, inr, leb,
  arith, length, take, drop, min, replicate,
}
use deterministic_exchange_r.Retransmit.{RetainedFrame, payload, stored, drop_confirmed, since}
use deterministic_exchange_r.Types.{SequenceNumber}

-- The frames hold these payloads, in order, and are numbered from n on.
abbrev pub Holds : ℕ → List RetainedFrame → List (List ℕ) → Type 0
Holds n [] [] = Unit {0}
Holds n [] (p ∷ ps) = ⊥
Holds n (f ∷ fs) [] = ⊥
Holds n (f ∷ fs) (p ∷ ps) = (f.sequence ≡ n) × (payload f ≡ p) × Holds (n + 1) fs ps

pub Holds-length :
    (n : ℕ) (fs : List RetainedFrame) (ps : List (List ℕ)) → Holds n fs ps → length fs ≡ length ps
Holds-length n [] [] h = refl
Holds-length n [] (p ∷ ps) h = absurd h
Holds-length n (f ∷ fs) [] h = absurd h
Holds-length n (f ∷ fs) (p ∷ ps) h = omega (arith, Holds-length (n + 1) fs ps h.2)

pub Holds-start :
    {m n : ℕ} (fs : List RetainedFrame) (ps : List (List ℕ)) → m ≡ n → Holds n fs ps → Holds m fs ps
Holds-start fs ps e h = rw e h

take-append {ℓ} : {A : Type ℓ} (xs ys : List A) → take (length xs) (xs ++ ys) ≡ xs
take-append [] [] = refl
take-append [] (y ∷ ys) = refl
take-append (x ∷ xs) ys = rw (take-append xs ys)

-- the zero padding does not show
pub payload-stored : (q : SequenceNumber) (bytes : List ℕ) → payload (stored q bytes) ≡ bytes
payload-stored q bytes = take-append bytes (replicate (46 - length bytes) 0)

pub Holds-push :
    (n q : ℕ) (bytes : List ℕ) (fs : List RetainedFrame) (ps : List (List ℕ))
    → Holds n fs ps
    → q ≡ n + length ps
    → Holds n (fs ++ stored q bytes ∷ []) (ps ++ bytes ∷ [])
Holds-push n q bytes [] [] h e = (omega arith, payload-stored q bytes, tt)
Holds-push n q bytes [] (p ∷ ps) h e = absurd h
Holds-push n q bytes (f ∷ fs) [] h e = absurd h
Holds-push n q bytes (f ∷ fs) (p ∷ ps) h e =
    (h.0, h.1, Holds-push (n + 1) q bytes fs ps h.2 (omega arith))

drop-nil {ℓ} : {A : Type ℓ} (k : ℕ) → drop {A = A} k [] ≡ []
drop-nil zero = refl
drop-nil (suc k) = refl

drop-eq-zero {ℓ} : {A : Type ℓ} (k : ℕ) (xs : List A) → k ≡ 0 → drop k xs ≡ xs
drop-eq-zero k xs e = rw e

drop-eq-suc {ℓ} :
    {A : Type ℓ} (k m : ℕ) (x : A) (xs : List A) → k ≡ suc m → drop k (x ∷ xs) ≡ drop m xs
drop-eq-suc k m x xs e = rw e

-- Dropping through c from a window that is numbered from n on.
pub drop_confirmed_lem :
    (c n : ℕ) (fs : List RetainedFrame) (ps : List (List ℕ))
    → Holds n fs ps
    → let (kept, dropped) = drop_confirmed c fs in
      Holds (n + dropped) kept (drop (c + 1 - n) ps) × (dropped ≡ min (c + 1 - n) (length ps))
unfolding drop_confirmed
drop_confirmed_lem c n [] [] h = rw (drop-nil (c + 1 - n)) (tt, omega arith)
drop_confirmed_lem c n [] (p ∷ ps) h = absurd h
drop_confirmed_lem c n (f ∷ fs) [] h = absurd h
drop_confirmed_lem c n (f ∷ fs) (p ∷ ps) h = elim (Bool-cases (leb f.sequence c)) [
  | inl covered ↦
      let (held, count) = drop_confirmed_lem c (n + 1) fs ps h.2 in
      let below : n ≤ c = ground arith in
      rw (covered, drop-eq-suc (c + 1 - n) (c + 1 - (n + 1)) p ps (omega arith))
        (Holds-start _ _ (omega arith) held, omega arith)
  | inr above ↦
      let past : c < n = ground arith in
      rw (above, drop-eq-zero (c + 1 - n) (p ∷ ps) (omega arith))
        (Holds-start (f ∷ fs) (p ∷ ps) (omega arith) h, omega arith)
]

-- The frames from a number on are the payloads from that number on.
pub since_lem :
    (from n : ℕ) (fs : List RetainedFrame) (ps : List (List ℕ))
    → Holds n fs ps
    → Holds (n + (from - n)) (since from fs) (drop (from - n) ps)
unfolding since
since_lem from n [] [] h = rw (drop-nil (from - n)) tt
since_lem from n [] (p ∷ ps) h = absurd h
since_lem from n (f ∷ fs) [] h = absurd h
since_lem from n (f ∷ fs) (p ∷ ps) h =
    let held = since_lem from (n + 1) fs ps h.2 in
    elim (Bool-cases (leb from f.sequence)) [
      | inl kept ↦
          let reached : from ≤ n = ground arith in
          let rest : Holds (n + 1) (since from fs) ps =
            Holds-start _ _ (omega arith)
              (rw (drop-eq-zero (from - (n + 1)) ps (omega arith)) at held) in
          rw (kept, drop-eq-zero (from - n) (p ∷ ps) (omega arith))
            (omega arith, h.1, Holds-start _ _ (omega arith) rest)
      | inr skipped ↦
          let short : n < from = ground arith in
          rw (skipped, drop-eq-suc (from - n) (from - (n + 1)) p ps (omega arith))
            (Holds-start _ _ (omega arith) held)
    ]
