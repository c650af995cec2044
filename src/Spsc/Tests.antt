-- ===== src/Spsc/Tests.antt =====
-- A ring of two slots whose tail has just wrapped around, with one value in it.
use deterministic_exchange_r.Prelude.{
  ℕ, zero, suc, ◌+◌, ◌-◌, ◌%◌, ◌^◌, ◌≤◌, ◌<◌, ◌≡◌, refl, ap, List, [], ◌∷◌, Option, none, some,
  get_elem?, arith,
}
use deterministic_exchange_r.Spsc.{SpscQueue, Producer, Consumer, push_impl, pop_impl}
use deterministic_exchange_r.Spsc.Holds.{Positions, Stored, Holds}
use deterministic_exchange_r.Spsc.Fifo.{PushEnds, PopEnds, push_impl-pop_impl}

abbrev slots : List (Option ℕ)
slots = none ∷ some 7 ∷ []

abbrev last : ℕ
last = 2 ^ 64 - 1

abbrev ring : SpscQueue ℕ
ring = record { head = last; tail = 0; slots = slots }

abbrev sender : Producer
sender = record { tail = 0; cached_head = last - 1 }

abbrev receiver : Consumer
receiver = record { head = last; cached_tail = last }

abbrev here : Positions
here = record { head = last; tail = last + 1; seen_head = last - 1; seen_tail = last }

slots-live :
    (i x : ℕ) → get_elem? (7 ∷ []) i ≡ some x → get_elem? slots ((last + i) % 2) ≡ some (some x)
slots-live zero x at = ap (λ (k : Option ℕ). some k) at
slots-live (suc i) x at = cc

slots-vacant : (j : ℕ) → last + 1 ≤ j → j < last + 2 → get_elem? slots (j % 2) ≡ some none
slots-vacant j after below =
    let at : j ≡ last + 1 = omega (arith, after, below) in ap (λ k. get_elem? slots (k % 2)) at

slots-Stored : Stored 2 slots last (last + 1) (7 ∷ [])
slots-Stored = record { sized = refl; counted = refl; live = slots-live; vacant = slots-vacant }

ring-Holds : Holds ring sender receiver here (7 ∷ [])
ring-Holds = record {
  divides = refl;
  small = omega arith;
  head = refl;
  tail = refl;
  producer_tail = refl;
  producer_head = refl;
  consumer_head = refl;
  consumer_tail = refl;
  seen_head = omega arith;
  seen_tail = omega arith;
  published = omega arith;
  bounded = omega arith;
  stored = slots-Stored;
}

push_impl-pop_impl_example :
    PushEnds ring sender receiver here (7 ∷ []) 8 last (push_impl last 8 (ring, sender))
    × PopEnds ring sender receiver here (7 ∷ []) (last + 1) (pop_impl 0 (ring, receiver))
push_impl-pop_impl_example =
    push_impl-pop_impl ring sender receiver here (7 ∷ []) 8 last (last + 1) ring-Holds (omega arith)
      (omega arith) (omega arith) (omega arith)
