-- ===== src/Retransmit/History.antt =====
-- The buffer against an abstract log: how many frames the peer has confirmed, and the payloads that
-- are not confirmed yet.
use deterministic_exchange_r.Prelude.{
  Bool, ℕ, ◌+◌, ◌-◌, ◌≤◌, ◌<◌, ◌≡◌, ◌≢◌, ◌⊎◌, refl, List, [], ◌∷◌, ◌++◌, ◌&&◌, not, ltb, leb, ◌==◌,
  if◌then◌else◌, arith, length, length-append, drop, length-drop, min,
}
use deterministic_exchange_r.Prelude.Words.{u64_mod}
use deterministic_exchange_r.Prelude.Outcome.{err}
use deterministic_exchange_r.Types.{SequenceNumber}
use deterministic_exchange_r.Retransmit.{
  RetransmitBuffer, RetainError, full, not_in_order, sequence_overflow, new, retain,
  confirm_through, since,
}
use deterministic_exchange_r.Retransmit.Window.{
  Holds, Holds-length, Holds-push, Holds-start, drop_confirmed_lem, since_lem,
}

pub record Log : Type 0 where
  pub confirmed : ℕ
  pub pending : List (List ℕ)

pub data Op : Type 0 where
  retains : SequenceNumber → List ℕ → Op
  confirms : ℕ → Op

-- A frame is taken when it is small enough, is the next one, finds room, and has a successor.
abbrev pub takes : ℕ → Log → SequenceNumber → List ℕ → Bool
takes capacity log q bytes =
    leb (length bytes) 46
    && q == log.confirmed + length log.pending + 1
    && not (length log.pending == capacity)
    && ltb (q + 1) u64_mod

abbrev pub log_step : ℕ → Log → Op → Log
log_step capacity log (retains q bytes) =
    if takes capacity log q bytes then record log { pending = log.pending ++ bytes ∷ [] } else log
log_step capacity log (confirms c) =
    let newly = min (c - log.confirmed) (length log.pending) in
    record { confirmed = log.confirmed + newly; pending = drop (c - log.confirmed) log.pending }

unfoldable pub log_run : ℕ → Log → List Op → Log
log_run capacity log [] = log
log_run capacity log (op ∷ ops) = log_run capacity (log_step capacity log op) ops

abbrev pub buffer_step : RetransmitBuffer → Op → RetransmitBuffer
buffer_step b (retains q bytes) = (retain q bytes b).1
buffer_step b (confirms c) = (confirm_through c b).0

unfoldable pub buffer_run : RetransmitBuffer → List Op → RetransmitBuffer
buffer_run b [] = b
buffer_run b (op ∷ ops) = buffer_run (buffer_step b op) ops

-- The buffer stands for the log.
pub record Refines (capacity : ℕ) (log : Log) (b : RetransmitBuffer) : Type 0 where
  pub holds : Holds (log.confirmed + 1) b.entries log.pending
  pub next : b.next_sequence ≡ log.confirmed + length log.pending + 1
  pub same_capacity : b.capacity ≡ capacity
  pub bounded : length log.pending ≤ capacity

module _ (capacity : ℕ) (log : Log) (b : RetransmitBuffer) where
  retain-Refines :
      (q : SequenceNumber) (bytes : List ℕ)
      → Refines capacity log b
      → Refines capacity (log_step capacity log (retains q bytes)) (retain q bytes b).1
  unfolding retain
  retain-Refines q bytes r =
      let size = Holds-length (log.confirmed + 1) b.entries log.pending r.holds in
      let grown = length-append log.pending (bytes ∷ []) in
      ground
        (arith, size, grown, Holds-push (log.confirmed + 1) q bytes b.entries log.pending r.holds)

  confirm-Refines :
      (c : ℕ)
      → Refines capacity log b
      → Refines capacity (log_step capacity log (confirms c)) (confirm_through c b).0
  unfolding confirm_through
  confirm-Refines c r =
      let (held, count) = drop_confirmed_lem c (log.confirmed + 1) b.entries log.pending r.holds in
      let offset : c + 1 - (log.confirmed + 1) ≡ c - log.confirmed = omega arith in
      record {
        holds = Holds-start _ _ (omega (arith, count)) (rw offset at held);
        next = omega (arith, r.next, length-drop (c - log.confirmed) log.pending);
        same_capacity = r.same_capacity;
        bounded = omega (arith, r.bounded, length-drop (c - log.confirmed) log.pending);
      }

step-Refines :
    (capacity : ℕ) (log : Log) (b : RetransmitBuffer) (op : Op)
    → Refines capacity log b
    → Refines capacity (log_step capacity log op) (buffer_step b op)
step-Refines capacity log b (retains q bytes) r = retain-Refines capacity log b q bytes r
step-Refines capacity log b (confirms c) r = confirm-Refines capacity log b c r

run-Refines_from :
    (capacity : ℕ) (log : Log) (b : RetransmitBuffer) (ops : List Op)
    → Refines capacity log b
    → Refines capacity (log_run capacity log ops) (buffer_run b ops)
unfolding log_run buffer_run
run-Refines_from capacity log b [] r = r
run-Refines_from capacity log b (op ∷ ops) r =
    run-Refines_from capacity (log_step capacity log op) (buffer_step b op) ops
      (step-Refines capacity log b op r)

-- After any calls of `retain` and `confirm_through` on a new buffer it holds, within its capacity,
-- exactly the payloads that the log has pending, in order, numbered on from the last confirmed one.
pub run-Refines :
    (capacity : ℕ) (ops : List Op)
    → Refines capacity
        (log_run capacity (record { confirmed = 0; pending = [] }) ops)
        (buffer_run (new capacity) ops)
unfolding new
run-Refines capacity ops =
    run-Refines_from capacity _ _ ops
      (record { holds = tt; next = refl; same_capacity = refl; bounded = omega arith })

-- `since`, on a buffer that stands for a log, hands back exactly the pending payloads whose numbers are at least `from`, in order.
pub since-Refines :
    (capacity from : ℕ) (log : Log) (b : RetransmitBuffer)
    → Refines capacity log b
    → Holds
        (log.confirmed + 1 + (from - (log.confirmed + 1)))
        (since from b.entries)
        (drop (from - (log.confirmed + 1)) log.pending)
since-Refines capacity from log b r =
    since_lem from (log.confirmed + 1) b.entries log.pending r.holds

-- A frame that `retain` refuses leaves the buffer alone, and each refusal has its reason: the frame
-- is too long or the buffer is full, its number is not the next, or its number is the last u64.
pub retain_refused :
    (q : SequenceNumber) (bytes : List ℕ) (b : RetransmitBuffer) (e : RetainError)
    → (retain q bytes b).0 ≡ err e
    → ((retain q bytes b).1 ≡ b)
      × ((e ≡ full) × ((46 < length bytes) ⊎ (length b.entries ≡ b.capacity))
          ⊎ (e ≡ not_in_order b.next_sequence q) × (q ≢ b.next_sequence)
          ⊎ (e ≡ sequence_overflow) × (u64_mod ≤ q + 1))
unfolding retain
retain_refused q bytes b e h = ground arith
