-- ===== src/Session/Sequencing.antt =====
-- Which commands a session accepts.
use deterministic_exchange_r.Prelude.{ℕ, ◌+◌, ◌<◌, ◌≡◌, refl, ◌↔◌, true, some, arith}
use deterministic_exchange_r.Prelude.Words.{u64_mod}
use deterministic_exchange_r.Prelude.Outcome.{ok}
use deterministic_exchange_r.Session.{
  SessionState, active, recovering, command, SessionStateMachine, Transition, allows_commands,
  accept_command, dispatch, handle,
}

-- What a session must be for it to accept the command q at the time now.
pub record Admits (s : SessionStateMachine) (q now : ℕ) : Type 0 where
  pub open_state : allows_commands s.state ≡ true
  pub expected : q ≡ s.next_sequence
  pub successor : s.next_sequence + 1 < u64_mod
  pub deadline_fits : now + s.config.heartbeat_timeout_ticks < u64_mod

-- the session after it
abbrev pub admitted : SessionStateMachine → ℕ → SessionStateMachine
admitted s now = record s {
  state = active;
  next_sequence = s.next_sequence + 1;
  deadline = some (now + s.config.heartbeat_timeout_ticks);
  heartbeat_timeouts = 0;
}

abbrev pub armed : SessionStateMachine → ℕ → Transition
armed s now = record { state = active; deadline = some (now + s.config.heartbeat_timeout_ticks) }

accept_command_lem :
    (q now : ℕ) (s : SessionStateMachine)
    → Admits s q now
    → accept_command q now s ≡ (ok (armed s now), admitted s now)
unfolding accept_command
accept_command_lem q now s a = ground arith

accept_command-Admits :
    (q now : ℕ) (s : SessionStateMachine) {t : Transition}
    → allows_commands s.state ≡ true
    → (accept_command q now s).0 ≡ ok t
    → Admits s q now
unfolding accept_command
accept_command-Admits q now s o h = ground arith

dispatch-Admits :
    (st : SessionState) (q now : ℕ) (s : SessionStateMachine) {t : Transition}
    → s.state ≡ st
    → (dispatch st (command q) now s).0 ≡ ok t
    → Admits s q now
unfolding dispatch allows_commands
dispatch-Admits active q now s e h = accept_command-Admits q now s (ground arith) h
dispatch-Admits recovering q now s e h = accept_command-Admits q now s (ground arith) h
dispatch-Admits _ q now s e h = cc

pub dispatch-admitted :
    (st : SessionState) (q now : ℕ) (s : SessionStateMachine)
    → s.state ≡ st
    → Admits s q now
    → dispatch st (command q) now s ≡ (ok (armed s now), admitted s now)
unfolding dispatch allows_commands
dispatch-admitted active q now s e a = accept_command_lem q now s a
dispatch-admitted recovering q now s e a = accept_command_lem q now s a
dispatch-admitted _ q now s e a = ground arith

-- A command is accepted exactly when the session is Active or Recovering, the command carries the
-- expected sequence number, and neither that number nor the deadline overflows a u64; then the
-- session is Active, expects the next number, and has the heartbeat deadline armed.
pub handle_command :
    (q now : ℕ) (s : SessionStateMachine)
    → (((t : Transition) × ((handle (command q) now s).0 ≡ ok t)) ↔ Admits s q now)
      × (Admits s q now → handle (command q) now s ≡ (ok (armed s now), admitted s now))
unfolding handle
handle_command q now s = (
  (
    λ h. dispatch-Admits s.state q now s refl h.1,
    λ a. (armed s now, rw (dispatch-admitted s.state q now s refl a)),
  ),
  dispatch-admitted s.state q now s refl,
)
