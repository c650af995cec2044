-- ===== src/Retransmit/Tests.antt =====
-- Runs of one retransmission buffer.
use deterministic_exchange_r.Prelude.{ℕ, ◌+◌, ◌≡◌, ◌≢◌, ◌⊎◌, ◌<◌, ◌≤◌, refl, List, [], ◌∷◌, length}
use deterministic_exchange_r.Prelude.Words.{u64_mod}
use deterministic_exchange_r.Retransmit.{
  RetransmitBuffer, full, not_in_order, sequence_overflow, new, retain, since,
}
use deterministic_exchange_r.Retransmit.Window.{Holds}
use deterministic_exchange_r.Retransmit.History.{
  Log, Op, retains, confirms, log_run, buffer_run, Refines, run-Refines, since-Refines,
  retain_refused,
}

abbrev calls : List Op
calls =
    retains 1 (10 ∷ [])
    ∷ retains 2 (20 ∷ 21 ∷ [])
    ∷ retains 4 []
    ∷ confirms 1
    ∷ retains 3 (30 ∷ [])
    ∷ []

abbrev start : Log
start = record { confirmed = 0; pending = [] }

abbrev left : Log
left = record { confirmed = 1; pending = (20 ∷ 21 ∷ []) ∷ (30 ∷ []) ∷ [] }

calls-left : log_run 2 start calls ≡ left
unfolding log_run
calls-left = refl

run-Refines_example : Refines 2 (log_run 2 start calls) (buffer_run (new 2) calls)
run-Refines_example = run-Refines 2 calls

since-Refines_example : Holds 3 (since 3 (buffer_run (new 2) calls).entries) ((30 ∷ []) ∷ [])
unfolding log_run
since-Refines_example = since-Refines 2 3 left (buffer_run (new 2) calls) run-Refines_example

abbrev waiting : RetransmitBuffer
waiting = record { entries = []; capacity = 2; next_sequence = 5 }

abbrev one_byte : List ℕ
one_byte = 1 ∷ []

retain_refused_example :
    ((retain 7 one_byte waiting).1 ≡ waiting)
    × ((not_in_order 5 7 ≡ full)
          × ((46 < length one_byte) ⊎ (length waiting.entries ≡ waiting.capacity))
        ⊎ (not_in_order 5 7 ≡ not_in_order 5 7) × (7 ≢ waiting.next_sequence)
        ⊎ (not_in_order 5 7 ≡ sequence_overflow) × (u64_mod ≤ 7 + 1))
unfolding retain
retain_refused_example = retain_refused 7 one_byte waiting (not_in_order 5 7) refl
