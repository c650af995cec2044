-- ===== src/Spsc/Endpoints.antt =====
-- `push_impl` and `pop_impl` on a ring that holds values.
use deterministic_exchange_r.Prelude.{
  ℕ, ◌+◌, ◌-◌, ◌%◌, ◌≤◌, ◌<◌, ◌≡◌, ◌≢◌, refl, sym, ap, ◌∙◌, ◌⊎◌, subst, List, [], ◌∷◌, ◌++◌, true,
  false, Option, none, some, ◌==◌, get_elem?, set, length, length-set, Bool-cases, inl, inr, arith,
}
use deterministic_exchange_r.Prelude.Words.{u64_mod}
use deterministic_exchange_r.Prelude.Outcome.{Outcome, ok, err}
use deterministic_exchange_r.Spsc.{
  SpscQueue, Producer, Consumer, capacity, index_of, wrapping_add, wrapping_sub, push_seeing,
  pop_seeing, QueueConfigError,
}
use deterministic_exchange_r.Spsc.Ring.{wrapping_sub_lem, wrapping_add_lem, slot_of, slots_differ}
use deterministic_exchange_r.Spsc.Holds.{Positions, Stored, Holds, write-Stored, read-Stored}

pub equal : (a b : ℕ) → (a == b) ≡ true → a ≡ b
equal a b h = ground arith

pub unequal : (a b : ℕ) → (a == b) ≡ false → a ≢ b
unequal a b h e = ground (arith, h, e)

-- positions at one place of the ring's counter, less than a turn apart
met : (i j : ℕ) → i ≤ j → j < i + u64_mod → i % u64_mod ≡ j % u64_mod → i ≡ j
met i j le below same = elim (Bool-cases (i == j)) [
  | inl here ↦ equal i j here
  | inr apart ↦
      let ne = unequal i j apart in
      absurd (slots_differ u64_mod i j (omega (arith, ne, le)) below same)
]

not_empty {ℓ} : {A : Type ℓ} (xs : List A) → 0 < length xs → (x : A) × (ys : List A) × (xs ≡ x ∷ ys)
not_empty [] h = absurd (omega (arith, h))
not_empty (x ∷ xs) h = (x, xs, refl)

module _ {A : Type 0} (q : SpscQueue A) (p : Producer) (c : Consumer) (at : Positions) (xs : List A)
    (h : Holds q p c at xs) where
  pub distance : wrapping_sub p.tail p.cached_head ≡ at.tail - at.seen_head
  distance =
      let s = h.stored in
      ap (λ k. wrapping_sub k p.cached_head) h.producer_tail
      ∙ ap (wrapping_sub (at.tail % u64_mod)) h.producer_head
      ∙ wrapping_sub_lem at.seen_head at.tail (omega (arith, h.seen_head, s.counted))
          (omega (arith, h.bounded, h.small))

  abbrev after_push : A → SpscQueue A
  after_push v = record q {
    slots = set q.slots (index_of q p.tail) (some v);
    tail = wrapping_add p.tail 1;
  }

  abbrev advanced : Producer
  advanced = record p { tail = wrapping_add p.tail 1 }

  next_slot : at.tail < at.head + capacity q → get_elem? q.slots (index_of q p.tail) ≡ some none
  next_slot room =
      let same =
        ap (λ k. k % capacity q) h.producer_tail ∙ slot_of (capacity q) at.tail h.divides in
      ap (get_elem? q.slots) same ∙ h.stored.vacant at.tail (omega arith) room

  after_push-Holds :
      (v : A)
      → at.tail < at.seen_head + capacity q
      → Holds (after_push v) advanced c (record at { tail = at.tail + 1 }) (xs ++ v ∷ [])
  after_push-Holds v room =
      let n = capacity q in
      let same = ap (λ k. k % n) h.producer_tail ∙ slot_of n at.tail h.divides in
      let size = length-set q.slots (index_of q p.tail) (some v) in
      let next = ap (λ k. wrapping_add k 1) h.producer_tail ∙ wrapping_add_lem at.tail in
      record {
        divides = ap (λ k. u64_mod % k) size ∙ h.divides;
        small = omega (arith, size, h.small);
        head = h.head;
        tail = next;
        producer_tail = next;
        producer_head = h.producer_head;
        consumer_head = h.consumer_head;
        consumer_tail = h.consumer_tail;
        seen_head = h.seen_head;
        seen_tail = h.seen_tail;
        published = omega (arith, h.published);
        bounded = omega (arith, room, size);
        stored =
            subst
              (λ k.
                Stored k (set q.slots (p.tail % n) (some v)) at.head (at.tail + 1) (xs ++ v ∷ []))
              (sym size)
              (subst (λ k. Stored n (set q.slots k (some v)) at.head (at.tail + 1) (xs ++ v ∷ []))
                (sym same)
                (write-Stored n q.slots at.head at.tail xs v h.stored
                  (omega (arith, room, h.seen_head))));
      }

  -- Full as far as the producer can see, with the value given back; or the value is at the end.
  abbrev pub Pushed : A → Outcome A (Unit {0}) × (SpscQueue A × Producer) → Type 0
  Pushed v r =
      ((r ≡ (err v, (q, p))) × (at.tail ≡ at.seen_head + capacity q))
      ⊎ ((q' : SpscQueue A) × (p' : Producer) × (r ≡ (ok tt, (q', p')))
          × Holds q' p' c (record at { tail = at.tail + 1 }) (xs ++ v ∷ []))

  pub push_seeing-Pushed : (v : A) → Pushed v (push_seeing v (q, p))
  unfolding push_seeing
  push_seeing-Pushed v = elim (Bool-cases (wrapping_sub p.tail p.cached_head == capacity q)) [
    | inl full ↦
        let eq : at.tail - at.seen_head ≡ capacity q = sym distance ∙ equal _ _ full in
        let s = h.stored in
        rw (push_seeing, full) (inl (refl, omega (arith, eq, h.seen_head, s.counted)))
    | inr room ↦
        let ne : at.tail - at.seen_head ≢ capacity q = λ e. unequal _ _ room (distance ∙ e) in
        let free : at.tail < at.seen_head + capacity q = omega (arith, ne, h.bounded) in
        rw (push_seeing, room, next_slot (omega (arith, free, h.seen_head)))
          (inr (after_push v, advanced, refl, after_push-Holds v free))
  ]

  pub load_head-Holds :
      (loaded : ℕ)
      → at.seen_head ≤ loaded
      → loaded ≤ at.head
      → Holds q
          (record p { cached_head = loaded % u64_mod })
          c
          (record at { seen_head = loaded })
          xs
  load_head-Holds loaded fresh le = record {
    divides = h.divides;
    small = h.small;
    head = h.head;
    tail = h.tail;
    producer_tail = h.producer_tail;
    producer_head = refl;
    consumer_head = h.consumer_head;
    consumer_tail = h.consumer_tail;
    seen_head = le;
    seen_tail = h.seen_tail;
    published = h.published;
    bounded = omega (arith, h.bounded, fresh);
    stored = h.stored;
  }

  abbrev after_pop : SpscQueue A
  after_pop = record q {
    slots = set q.slots (index_of q c.head) none;
    head = wrapping_add c.head 1;
  }

  abbrev followed : Consumer
  followed = record c { head = wrapping_add c.head 1 }

  after_pop-Holds :
      (x : A) (ys : List A)
      → xs ≡ x ∷ ys
      → at.head < at.seen_tail
      → Holds after_pop p followed (record at { head = at.head + 1 }) ys
  after_pop-Holds x ys first more =
      let n = capacity q in
      let same = ap (λ k. k % n) h.consumer_head ∙ slot_of n at.head h.divides in
      let size = length-set q.slots (index_of q c.head) none in
      let next = ap (λ k. wrapping_add k 1) h.consumer_head ∙ wrapping_add_lem at.head in
      let stored' = subst (Stored n q.slots at.head at.tail) first h.stored in
      record {
        divides = ap (λ k. u64_mod % k) size ∙ h.divides;
        small = omega (arith, size, h.small);
        head = next;
        tail = h.tail;
        producer_tail = h.producer_tail;
        producer_head = h.producer_head;
        consumer_head = next;
        consumer_tail = h.consumer_tail;
        seen_head = omega (arith, h.seen_head);
        seen_tail = omega (arith, more);
        published = h.published;
        bounded = omega (arith, h.bounded, size);
        stored =
            subst (λ k. Stored k (set q.slots (c.head % n) none) (at.head + 1) at.tail ys)
              (sym size)
              (subst (λ k. Stored n (set q.slots k none) (at.head + 1) at.tail ys) (sym same)
                (read-Stored n q.slots at.head at.tail x ys stored'
                  (omega (arith, h.bounded, h.seen_head))));
      }

  first_slot :
      (x : A) (ys : List A) → xs ≡ x ∷ ys → get_elem? q.slots (index_of q c.head) ≡ some (some x)
  first_slot x ys first =
      let same =
        ap (λ k. k % capacity q) h.consumer_head ∙ slot_of (capacity q) at.head h.divides in
      let start : at.head ≡ at.head + 0 = omega arith in
      ap (get_elem? q.slots) same
      ∙ ap (λ k. get_elem? q.slots (k % capacity q)) start
      ∙ h.stored.live 0 x (ap (λ zs. get_elem? zs 0) first)

  -- Empty as far as the consumer can see; or the first value is taken out.
  abbrev pub Popped : Outcome QueueConfigError (Option A) × (SpscQueue A × Consumer) → Type 0
  Popped r =
      ((r ≡ (ok none, (q, c))) × (at.head ≡ at.seen_tail))
      ⊎ ((x : A) × (ys : List A) × (q' : SpscQueue A) × (c' : Consumer) × (xs ≡ x ∷ ys)
          × (r ≡ (ok (some x), (q', c')))
          × Holds q' p c' (record at { head = at.head + 1 }) ys)

  pub pop_seeing-Popped : Popped (pop_seeing (q, c))
  unfolding pop_seeing
  pop_seeing-Popped = elim (Bool-cases (c.head == c.cached_tail)) [
    | inl empty ↦
        let same : at.head % u64_mod ≡ at.seen_tail % u64_mod =
          sym h.consumer_head ∙ equal _ _ empty ∙ h.consumer_tail in
        let together =
          met at.head at.seen_tail h.seen_tail
            (omega (arith, h.published, h.bounded, h.seen_head, h.small)) same in
        rw (pop_seeing, empty) (inl (refl, together))
    | inr more ↦
        let apart : at.head ≢ at.seen_tail =
          λ e. unequal _ _ more (h.consumer_head ∙ ap (λ k. k % u64_mod) e ∙ sym h.consumer_tail) in
        let ahead : at.head < at.seen_tail = omega (arith, apart, h.seen_tail) in
        let s = h.stored in
        let (x, ys, first) = not_empty xs (omega (arith, s.counted, ahead, h.published)) in
        rw (pop_seeing, more, first_slot x ys first)
          (inr (x, ys, after_pop, followed, first, refl, after_pop-Holds x ys first ahead))
  ]

  pub load_tail-Holds :
      (loaded : ℕ)
      → at.seen_tail ≤ loaded
      → loaded ≤ at.tail
      → Holds q p
          (record c { cached_tail = loaded % u64_mod })
          (record at { seen_tail = loaded })
          xs
  load_tail-Holds loaded fresh le = record {
    divides = h.divides;
    small = h.small;
    head = h.head;
    tail = h.tail;
    producer_tail = h.producer_tail;
    producer_head = h.producer_head;
    consumer_head = h.consumer_head;
    consumer_tail = refl;
    seen_head = h.seen_head;
    seen_tail = omega (arith, h.seen_tail, fresh);
    published = le;
    bounded = h.bounded;
    stored = h.stored;
  }
