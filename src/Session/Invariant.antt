-- ===== src/Session/Invariant.antt =====
-- What holds of every session that a machine can reach.
use deterministic_exchange_r.Prelude.{
  ℕ, ◌≤◌, ◌<◌, ◌≡◌, refl, sym, subst, Bool, true, false, Option, none, some, List, [], ◌∷◌, arith,
}
use deterministic_exchange_r.Prelude.Words.{u64_mod}
use deterministic_exchange_r.Session.{
  SessionState, disconnected, logon, active, recovering, logout, failed, SessionEvent, connect,
  logon_accepted, command, SessionConfig, SessionStateMachine, Input, event, clock, new,
  accept_logon, accept_command, dispatch, handle, timed_out, tick, step, run,
}

-- a deadline is armed in just these states
abbrev pub is_timed : SessionState → Bool
is_timed logon = true
is_timed active = true
is_timed recovering = true
is_timed _ = false

abbrev pub has_deadline : Option ℕ → Bool
has_deadline none = false
has_deadline (some _) = true

-- how many timeouts a state may have behind it
abbrev pub TimeoutsFit : SessionState → ℕ → Type 0
TimeoutsFit recovering n = n ≡ 1
TimeoutsFit logout n = n ≤ 1
TimeoutsFit _ n = n ≡ 0

-- The fields of a session agree with one another and fit their types.
pub record IsValid (s : SessionStateMachine) : Type 0 where
  pub timed : has_deadline s.deadline ≡ is_timed s.state
  pub timeouts : TimeoutsFit s.state s.heartbeat_timeouts
  pub started : 0 < s.next_sequence
  pub fits : s.next_sequence < u64_mod

-- Sequence numbers are u64.
abbrev pub EventFits : SessionEvent → Type 0
EventFits (logon_accepted first) = first < u64_mod
EventFits (command q) = q < u64_mod
EventFits _ = Unit {0}

abbrev pub InputFits : Input → Type 0
InputFits (event e now) = EventFits e
InputFits (clock now) = Unit {0}

accept_logon-IsValid :
    (first now : ℕ) (s : SessionStateMachine)
    → first < u64_mod
    → IsValid s
    → IsValid (accept_logon first now s).1
unfolding accept_logon
accept_logon-IsValid first now s h v = ground arith

accept_command-IsValid :
    (q now : ℕ) (s : SessionStateMachine) → IsValid s → IsValid (accept_command q now s).1
unfolding accept_command
accept_command-IsValid q now s v = ground arith

dispatch-IsValid :
    (st : SessionState) (e : SessionEvent) (now : ℕ) (s : SessionStateMachine)
    → s.state ≡ st
    → EventFits e
    → IsValid s
    → IsValid (dispatch st e now s).1
unfolding dispatch
dispatch-IsValid disconnected connect now s st h v = ground arith
dispatch-IsValid logon (logon_accepted first) now s st h v = accept_logon-IsValid first now s h v
dispatch-IsValid active (command q) now s st h v = accept_command-IsValid q now s v
dispatch-IsValid recovering (command q) now s st h v = accept_command-IsValid q now s v
dispatch-IsValid _ _ now s st h v = ground arith

timed_out-IsValid :
    (st : SessionState) (now : ℕ) (s : SessionStateMachine)
    → s.state ≡ st
    → IsValid s
    → IsValid (timed_out st now s).1
unfolding timed_out
timed_out-IsValid disconnected now s st v = v
timed_out-IsValid _ now s st v = ground arith

-- Every input keeps the session valid, accepted or refused.
pub step-IsValid :
    (i : Input) (s : SessionStateMachine) → InputFits i → IsValid s → IsValid (step i s).1
unfolding step handle tick
step-IsValid (event e now) s h v = dispatch-IsValid s.state e now s refl h v
step-IsValid (clock now) s h v = ground (arith, timed_out-IsValid s.state now s refl v)

abbrev pub AllFit : List Input → Type 0
AllFit [] = Unit {0}
AllFit (i ∷ is) = InputFits i × AllFit is

run-IsValid :
    (is : List Input) (s : SessionStateMachine) → AllFit is → IsValid s → IsValid (run is s)
unfolding run
run-IsValid [] s h v = v
run-IsValid (i ∷ is) s h v = run-IsValid is (step i s).1 h.1 (step-IsValid i s h.0 v)

-- Any inputs with u64 sequence numbers, from a fresh session, lead to a session that has a deadline exactly in the Logon,
-- Active and Recovering states, at most one timeout counted, and a u64 sequence number above zero.
pub run-new-IsValid :
    (config : SessionConfig) (is : List Input) → AllFit is → IsValid (run is (new config))
unfolding new
run-new-IsValid config is h =
    run-IsValid is _ h
      (record { timed = refl; timeouts = refl; started = omega arith; fits = omega arith })

dispatch-failed :
    (e : SessionEvent) (now : ℕ) (s : SessionStateMachine)
    → s.state ≡ failed
    → (dispatch failed e now s).1.state ≡ failed
unfolding dispatch
dispatch-failed connect now s e = e
dispatch-failed _ now s e = ground arith

pub step-failed :
    (i : Input) (s : SessionStateMachine)
    → IsValid s
    → s.state ≡ failed
    → (step i s).1.state ≡ failed
unfolding step handle tick timed_out
step-failed (event ev now) s v e =
    subst (λ st. (dispatch st ev now s).1.state ≡ failed) (sym e) (dispatch-failed ev now s e)
step-failed (clock now) s v e = ground arith

-- A valid failed session stays failed under any further inputs with u64 sequence numbers.
pub run-failed :
    (is : List Input) (s : SessionStateMachine)
    → AllFit is
    → IsValid s
    → s.state ≡ failed
    → (run is s).state ≡ failed
unfolding run
run-failed [] s h v e = e
run-failed (i ∷ is) s h v e =
    run-failed is (step i s).1 h.1 (step-IsValid i s h.0 v) (step-failed i s v e)
