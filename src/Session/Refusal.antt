-- ===== src/Session/Refusal.antt =====
-- A refused event or tick leaves the session as it was.
use deterministic_exchange_r.Prelude.{ℕ, ◌≡◌, refl, arith}
use deterministic_exchange_r.Prelude.Outcome.{err}
use deterministic_exchange_r.Session.{
  SessionState, disconnected, logon, active, recovering, SessionEvent, connect, logon_accepted,
  command, SessionError, SessionStateMachine, Input, event, clock, accept_logon, accept_command,
  dispatch, handle, timed_out, tick, step,
}

accept_logon-refused :
    (first now : ℕ) (s : SessionStateMachine) {e : SessionError}
    → (accept_logon first now s).0 ≡ err e
    → (accept_logon first now s).1 ≡ s
unfolding accept_logon
accept_logon-refused first now s h = ground arith

accept_command-refused :
    (q now : ℕ) (s : SessionStateMachine) {e : SessionError}
    → (accept_command q now s).0 ≡ err e
    → (accept_command q now s).1 ≡ s
unfolding accept_command
accept_command-refused q now s h = ground arith

dispatch-refused :
    (st : SessionState) (ev : SessionEvent) (now : ℕ) (s : SessionStateMachine) {e : SessionError}
    → (dispatch st ev now s).0 ≡ err e
    → (dispatch st ev now s).1 ≡ s
unfolding dispatch
dispatch-refused disconnected connect now s h = ground arith
dispatch-refused logon (logon_accepted first) now s h = accept_logon-refused first now s h
dispatch-refused active (command q) now s h = accept_command-refused q now s h
dispatch-refused recovering (command q) now s h = accept_command-refused q now s h
dispatch-refused _ _ now s h = ground arith

timed_out-refused :
    (st : SessionState) (now : ℕ) (s : SessionStateMachine) {e : SessionError}
    → (timed_out st now s).0 ≡ err e
    → (timed_out st now s).1 ≡ s
unfolding timed_out
timed_out-refused disconnected now s h = refl
timed_out-refused _ now s h = ground arith

tick-refused :
    (now : ℕ) (s : SessionStateMachine) {e : SessionError}
    → (tick now s).0 ≡ err e
    → (tick now s).1 ≡ s
unfolding tick
tick-refused now s h = ground (arith, timed_out-refused s.state now s)

-- Whatever the state and the input, an input that is refused changes no field of the session.
pub step-refused :
    (i : Input) (s : SessionStateMachine) {e : SessionError}
    → (step i s).0 ≡ err e
    → (step i s).1 ≡ s
unfolding step handle
step-refused (event ev now) s h = dispatch-refused s.state ev now s h
step-refused (clock now) s h = tick-refused now s h
