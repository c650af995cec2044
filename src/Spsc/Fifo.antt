-- ===== src/Spsc/Fifo.antt =====
-- `push_impl` and `pop_impl` whole, whatever their loads return.
use deterministic_exchange_r.Prelude.{
  ℕ, ◌+◌, ◌%◌, ◌≤◌, ◌≡◌, sym, ap, ◌∙◌, ◌⊎◌, List, [], ◌∷◌, ◌++◌, Option, none, some, ◌==◌,
  Bool-cases, inl, inr, arith,
}
use deterministic_exchange_r.Prelude.Words.{u64_mod}
use deterministic_exchange_r.Prelude.Outcome.{Outcome, ok, err}
use deterministic_exchange_r.Spsc.{
  SpscQueue, Producer, Consumer, QueueConfigError, capacity, wrapping_sub, push_impl, pop_impl,
}
use deterministic_exchange_r.Spsc.Holds.{Positions, Holds}
use deterministic_exchange_r.Spsc.Endpoints.{
  unequal, distance, push_seeing-Pushed, pop_seeing-Popped, load_head-Holds, load_tail-Holds,
}

module _ {A : Type 0} (q : SpscQueue A) (p : Producer) (c : Consumer) (at : Positions)
    (xs : List A) where
  -- The value is given back, and the ring is full by the position that the load returned; or the value is
  -- at the end.
  abbrev pub PushEnds : A → ℕ → Outcome A (Unit {0}) × (SpscQueue A × Producer) → Type 0
  PushEnds v loaded r =
      ((p' : Producer) × (r ≡ (err v, (q, p')))
        × (at.tail ≡ loaded + capacity q)
        × Holds q p' c (record at { seen_head = loaded }) xs)
      ⊎ ((q' : SpscQueue A) × (p' : Producer) × (seen : ℕ) × (r ≡ (ok tt, (q', p')))
          × Holds q' p' c (record at { tail = at.tail + 1; seen_head = seen }) (xs ++ v ∷ []))

  -- There is no value, and the ring is empty by the position that the load returned; or the first value
  -- is taken out.
  abbrev pub PopEnds : ℕ → Outcome QueueConfigError (Option A) × (SpscQueue A × Consumer) → Type 0
  PopEnds loaded r =
      ((c' : Consumer) × (r ≡ (ok none, (q, c')))
        × (at.head ≡ loaded)
        × Holds q p c' (record at { seen_tail = loaded }) xs)
      ⊎ ((x : A) × (ys : List A) × (q' : SpscQueue A) × (c' : Consumer) × (seen : ℕ) × (xs ≡ x ∷ ys)
          × (r ≡ (ok (some x), (q', c')))
          × Holds q' p c' (record at { head = at.head + 1; seen_tail = seen }) ys)

  push_impl-ends :
      (v : A) (loaded : ℕ)
      → Holds q p c at xs
      → at.seen_head ≤ loaded
      → loaded ≤ at.head
      → PushEnds v loaded (push_impl (loaded % u64_mod) v (q, p))
  unfolding push_impl
  push_impl-ends v loaded h fresh le =
      elim (Bool-cases (wrapping_sub p.tail p.cached_head == capacity q)) [
        | inl full ↦
            let p1 : Producer = record p { cached_head = loaded % u64_mod } in
            let h1 = load_head-Holds q p c at xs h loaded fresh le in
            rw (push_impl, full)
              (elim (push_seeing-Pushed q p1 c (record at { seen_head = loaded }) xs h1 v) [
                | inl (refused, full_by) ↦ inl (p1, refused, full_by, h1)
                | inr (q', p', done, holds) ↦ inr (q', p', loaded, done, holds)
              ])
        | inr room ↦
            rw (push_impl, room)
              (elim (push_seeing-Pushed q p c at xs h v) [
                | inl (refused, full_by) ↦
                    absurd (unequal _ _ room (distance q p c at xs h ∙ omega (arith, full_by)))
                | inr (q', p', done, holds) ↦ inr (q', p', at.seen_head, done, holds)
              ])
      ]

  pop_impl-ends :
      (loaded : ℕ)
      → Holds q p c at xs
      → at.seen_tail ≤ loaded
      → loaded ≤ at.tail
      → PopEnds loaded (pop_impl (loaded % u64_mod) (q, c))
  unfolding pop_impl
  pop_impl-ends loaded h fresh le = elim (Bool-cases (c.head == c.cached_tail)) [
    | inl empty ↦
        let c1 : Consumer = record c { cached_tail = loaded % u64_mod } in
        let h1 = load_tail-Holds q p c at xs h loaded fresh le in
        rw (pop_impl, empty)
          (elim (pop_seeing-Popped q p c1 (record at { seen_tail = loaded }) xs h1) [
            | inl (nothing, empty_by) ↦ inl (c1, nothing, empty_by, h1)
            | inr (x, ys, q', c', first, done, holds) ↦
                inr (x, ys, q', c', loaded, first, done, holds)
          ])
    | inr more ↦
        rw (pop_impl, more)
          (elim (pop_seeing-Popped q p c at xs h) [
            | inl (nothing, empty_by) ↦ absurd (
                unequal _ _ more
                  (h.consumer_head ∙ ap (λ k. k % u64_mod) empty_by ∙ sym h.consumer_tail))
            | inr (x, ys, q', c', first, done, holds) ↦
                inr (x, ys, q', c', at.seen_tail, first, done, holds)
          ])
  ]

  -- While the ring holds values, and whatever load of the other side's position returns, from the last one
  -- seen to the present one: a push adds its value at the end, or gives it back when the ring is full by
  -- that load; a pop takes out the first value, or none when the ring is empty by that load. No slot in
  -- use is written and none that is not initialized is read, and the ring goes on holding the values.
  pub push_impl-pop_impl :
      (v : A) (loaded_head loaded_tail : ℕ)
      → Holds q p c at xs
      → at.seen_head ≤ loaded_head
      → loaded_head ≤ at.head
      → at.seen_tail ≤ loaded_tail
      → loaded_tail ≤ at.tail
      → PushEnds v loaded_head (push_impl (loaded_head % u64_mod) v (q, p))
        × PopEnds loaded_tail (pop_impl (loaded_tail % u64_mod) (q, c))
  push_impl-pop_impl v loaded_head loaded_tail h fresh_head le_head fresh_tail le_tail = (
    push_impl-ends v loaded_head h fresh_head le_head,
    pop_impl-ends loaded_tail h fresh_tail le_tail,
  )
