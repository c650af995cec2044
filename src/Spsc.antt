-- ===== src/Spsc.antt =====
-- crates/hft-spsc/src/lib.rs: a bounded ring between one producer and one consumer. A read of a slot
-- that is not initialized and a write to one that is are undefined in the code: here a panic. What
-- an Acquire load returns is an argument of the operation, which takes effect at its Release store.
mod Tests
pub mod Ring
pub mod Holds
pub mod Endpoints
pub mod Fifo
pub mod Fresh
use deterministic_exchange_r.Prelude.{
  ℕ, zero, suc, ◌+◌, ◌-◌, ◌%◌, ◌^◌, List, Bool, true, false, not, Option, none, some, ◌==◌,
  if◌then◌else◌, get_elem?, set, length, replicate,
}
use deterministic_exchange_r.Prelude.Words.{u64_mod}
use deterministic_exchange_r.Prelude.Outcome.{Outcome, ok, err, panic}

-- `slots` has N entries; `none` is a slot that is not initialized.
pub record SpscQueue (A : Type 0) : Type 0 where
  pub head : ℕ
  pub tail : ℕ
  pub slots : List (Option A)

pub record Producer : Type 0 where
  pub tail : ℕ
  pub cached_head : ℕ

pub record Consumer : Type 0 where
  pub head : ℕ
  pub cached_tail : ℕ

pub data QueueConfigError : Type 0 where
  capacity_must_be_power_of_two : QueueConfigError

abbrev pub wrapping_add : ℕ → ℕ → ℕ
wrapping_add a b = (a + b) % u64_mod

abbrev pub wrapping_sub : ℕ → ℕ → ℕ
wrapping_sub a b = (a + u64_mod - b) % u64_mod

-- `N.is_power_of_two()`, for a usize
abbrev pub is_power_below : ℕ → ℕ → Bool
is_power_below zero n = false
is_power_below (suc k) n = if n == 2 ^ k then true else is_power_below k n

unfoldable pub try_new : {A : Type 0} → ℕ → Outcome QueueConfigError (SpscQueue A)
try_new n =
    if not (is_power_below 64 n)
    then err capacity_must_be_power_of_two
    else ok (record { head = 0; tail = 0; slots = replicate n none })

unfoldable pub split : {A : Type 0} → SpscQueue A → Producer × Consumer
split q =
    (record { tail = q.tail; cached_head = q.head }, record { head = q.head; cached_tail = q.tail })

abbrev pub capacity : {A : Type 0} → SpscQueue A → ℕ
capacity q = length q.slots

-- `position & (N - 1)`, for a power of two
abbrev pub index_of : {A : Type 0} → SpscQueue A → ℕ → ℕ
index_of q position = position % capacity q

-- `push_impl` after its look at the head
unfoldable pub push_seeing :
    {A : Type 0} → A → SpscQueue A × Producer → Outcome A (Unit {0}) × (SpscQueue A × Producer)
push_seeing value (q, p) =
    if wrapping_sub p.tail p.cached_head == capacity q
    then (err value, (q, p))
    else elim (get_elem? q.slots (index_of q p.tail)) [
      | none ↦ (panic, (q, p))
      | some (some _) ↦ (panic, (q, p))
      | some none ↦
          let tail = wrapping_add p.tail 1 in
          (
            ok tt,
            (
              record q { slots = set q.slots (index_of q p.tail) (some value); tail = tail },
              record p { tail = tail },
            ),
          )
    ]

-- the load of `head`, made when the ring looks full
abbrev pub look_at_head : {A : Type 0} → ℕ → SpscQueue A → Producer → Producer
look_at_head loaded q p =
    if wrapping_sub p.tail p.cached_head == capacity q then record p { cached_head = loaded } else p

-- `push_impl`, and so `try_push`; `loaded` is what the load of `head` returns, if it is made.
unfoldable pub push_impl :
    {A : Type 0} → ℕ → A → SpscQueue A × Producer → Outcome A (Unit {0}) × (SpscQueue A × Producer)
push_impl loaded value (q, p) = push_seeing value (q, look_at_head loaded q p)

-- `pop_impl` after its look at the tail
unfoldable pub pop_seeing :
    {A : Type 0}
    → SpscQueue A × Consumer
    → Outcome QueueConfigError (Option A) × (SpscQueue A × Consumer)
pop_seeing (q, c) =
    if c.head == c.cached_tail
    then (ok none, (q, c))
    else elim (get_elem? q.slots (index_of q c.head)) [
      | none ↦ (panic, (q, c))
      | some none ↦ (panic, (q, c))
      | some (some value) ↦
          let head = wrapping_add c.head 1 in
          (
            ok (some value),
            (
              record q { slots = set q.slots (index_of q c.head) none; head = head },
              record c { head = head },
            ),
          )
    ]

abbrev pub look_at_tail : ℕ → Consumer → Consumer
look_at_tail loaded c = if c.head == c.cached_tail then record c { cached_tail = loaded } else c

-- `pop_impl`, and so `try_pop`; `loaded` is what the load of `tail` returns, if it is made.
unfoldable pub pop_impl :
    {A : Type 0}
    → ℕ
    → SpscQueue A × Consumer
    → Outcome QueueConfigError (Option A) × (SpscQueue A × Consumer)
pop_impl loaded (q, c) = pop_seeing (q, look_at_tail loaded c)

-- `has_capacity`
unfoldable pub has_capacity : {A : Type 0} → ℕ → SpscQueue A → Producer → Bool × Producer
has_capacity loaded q p =
    let p' = look_at_head loaded q p in
    (not (wrapping_sub p'.tail p'.cached_head == capacity q), p')
