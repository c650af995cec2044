-- ===== src/Spsc/Holds.antt =====
-- The ring against the values between its two positions.
use native.Mathlib.Nat.{add-mod_right}
use deterministic_exchange_r.Prelude.{
  ltb, ℕ, zero, suc, ◌+◌, ◌%◌, ◌≤◌, ◌<◌, ◌≡◌, refl, sym, ap, ◌∙◌, ◌⊎◌, List, [], ◌∷◌, ◌++◌, Option,
  none, some, get_elem?, set, length, length-append, length-set, get_elem?-set_self,
  get_elem?-set_ne, get_elem?-some_lt, Bool-cases, inl, inr, arith,
}
use deterministic_exchange_r.Prelude.Words.{u64_mod}
use deterministic_exchange_r.Spsc.{SpscQueue, Producer, Consumer, capacity}
use deterministic_exchange_r.Spsc.Ring.{slots_differ}

-- Positions that do not wrap: `head` and `tail`, and what each side has last seen of the other's.
pub record Positions : Type 0 where
  pub head : ℕ
  pub tail : ℕ
  pub seen_head : ℕ
  pub seen_tail : ℕ

-- The slots from `head` to `tail` have the values, first to last; the others are not initialized.
pub record Stored {A : Type 0} (n : ℕ) (slots : List (Option A)) (head tail : ℕ) (xs : List A)
    : Type 0 where
  pub sized : length slots ≡ n
  pub counted : head + length xs ≡ tail
  pub live :
      (i : ℕ) (x : A) → get_elem? xs i ≡ some x → get_elem? slots ((head + i) % n) ≡ some (some x)
  pub vacant : (j : ℕ) → tail ≤ j → j < head + n → get_elem? slots (j % n) ≡ some none

pub record Holds {A : Type 0} (q : SpscQueue A) (p : Producer) (c : Consumer) (at : Positions)
    (xs : List A) : Type 0 where
  pub divides : u64_mod % capacity q ≡ 0
  pub small : capacity q < u64_mod
  pub head : q.head ≡ at.head % u64_mod
  pub tail : q.tail ≡ at.tail % u64_mod
  pub producer_tail : p.tail ≡ at.tail % u64_mod
  pub producer_head : p.cached_head ≡ at.seen_head % u64_mod
  pub consumer_head : c.head ≡ at.head % u64_mod
  pub consumer_tail : c.cached_tail ≡ at.seen_tail % u64_mod
  pub seen_head : at.seen_head ≤ at.head
  pub seen_tail : at.head ≤ at.seen_tail
  pub published : at.seen_tail ≤ at.tail
  pub bounded : at.tail ≤ at.seen_head + capacity q
  pub stored : Stored (capacity q) q.slots at.head at.tail xs

snoc-cases {ℓ} :
    {A : Type ℓ} (xs : List A) (v : A) (i : ℕ) (x : A)
    → get_elem? (xs ++ v ∷ []) i ≡ some x
    → ((get_elem? xs i ≡ some x) × (i < length xs)) ⊎ ((i ≡ length xs) × (v ≡ x))
snoc-cases [] v zero x at = inr (refl, cc)
snoc-cases [] v (suc i) x at = cc
snoc-cases (y ∷ xs) v zero x at = inl (at, omega arith)
snoc-cases (y ∷ xs) v (suc i) x at = elim (snoc-cases xs v i x at) [
  | inl (old, lt) ↦ inl (old, omega (arith, lt))
  | inr (last, same) ↦ inr (omega (arith, last), same)
]

-- Writing the first vacant slot adds a value at the end.
pub write-Stored :
    {A : Type 0} (n : ℕ) (slots : List (Option A)) (head tail : ℕ) (xs : List A) (v : A)
    → Stored n slots head tail xs
    → tail < head + n
    → Stored n (set slots (tail % n) (some v)) head (tail + 1) (xs ++ v ∷ [])
write-Stored n slots head tail xs v s room = record {
  sized = length-set slots (tail % n) (some v) ∙ s.sized;
  counted = omega (arith, s.counted, length-append xs (v ∷ []));
  live = λ i x at. elim (snoc-cases xs v i x at) [
    | inl (old, lt) ↦
        let apart =
          slots_differ n (head + i) tail (omega (arith, s.counted, lt)) (omega (arith, room)) in
        get_elem?-set_ne slots (some v) (λ e. apart (sym e)) ∙ s.live i x old
    | inr (last, same) ↦
        let here : head + i ≡ tail = omega (arith, last, s.counted) in
        let inside = get_elem?-some_lt slots (tail % n) (s.vacant tail (omega arith) room) in
        ap (λ k. get_elem? (set slots (tail % n) (some v)) (k % n)) here
        ∙ get_elem?-set_self slots (tail % n) (some v) inside
        ∙ ap (λ y. some (some y)) same
  ];
  vacant = λ j after below.
      get_elem?-set_ne slots (some v)
        (slots_differ n tail j (omega (arith, after)) (omega (arith, below, s.counted)))
      ∙ s.vacant j (omega (arith, after)) below;
}

-- Reading the first value leaves its slot vacant.
pub read-Stored :
    {A : Type 0} (n : ℕ) (slots : List (Option A)) (head tail : ℕ) (x : A) (xs : List A)
    → Stored n slots head tail (x ∷ xs)
    → tail ≤ head + n
    → Stored n (set slots (head % n) none) (head + 1) tail xs
read-Stored n slots head tail x xs s full = record {
  sized = length-set slots (head % n) none ∙ s.sized;
  counted = omega (arith, s.counted);
  live = λ i y at.
      let inside : i < length xs = get_elem?-some_lt xs i at in
      let next : head + 1 + i ≡ head + suc i = omega arith in
      ap (λ k. get_elem? (set slots (head % n) none) (k % n)) next
      ∙ get_elem?-set_ne slots none (
          slots_differ n head (head + suc i) (omega arith) (omega (arith, inside, s.counted, full)))
      ∙ s.live (suc i) y at;
  vacant = λ j after below. elim (Bool-cases (ltb j (head + n))) [
    | inl old ↦
        let lt : j < head + n = ground (arith, old) in
        get_elem?-set_ne slots none (slots_differ n head j (omega (arith, after, s.counted)) lt)
        ∙ s.vacant j after lt
    | inr last ↦
        let here : j ≡ head + n = ground (arith, last, below) in
        let first : head + 0 ≡ head = omega arith in
        let at_head = ap (λ k. get_elem? slots (k % n)) (sym first) ∙ s.live 0 x refl in
        ap (λ k. get_elem? (set slots (head % n) none) (k % n)) here
        ∙ ap (get_elem? (set slots (head % n) none)) (add-mod_right head n)
        ∙ get_elem?-set_self slots (head % n) none (get_elem?-some_lt slots (head % n) at_head)
  ];
}
