-- ===== src/Session/Timeouts.antt =====
-- When deadlines fire.
use deterministic_exchange_r.Prelude.{ℕ, ◌+◌, ◌≤◌, ◌<◌, ◌≡◌, sym, subst, none, some, arith}
use deterministic_exchange_r.Prelude.Words.{u64_mod}
use deterministic_exchange_r.Prelude.Outcome.{ok}
use deterministic_exchange_r.Session.{
  connecting, active, recovering, failed, logon_sent, SessionStateMachine, snapshot, dispatch,
  handle, timed_out, tick,
}

-- An Active session with a deadline, while the next one fits a u64: the clock changes nothing before the deadline; at or past it
-- the session is Recovering with the deadline moved on; when that passes too it is Failed, expects
-- sequence number 1 and has no deadline.
pub tick_twice :
    (s : SessionStateMachine) (deadline before first second : ℕ)
    → s.state ≡ active
    → s.deadline ≡ some deadline
    → before < deadline
    → deadline ≤ first
    → first + s.config.heartbeat_timeout_ticks < u64_mod
    → first + s.config.heartbeat_timeout_ticks ≤ second
    → let s1 = (tick first s).1 in
      let s2 = (tick second s1).1 in
      (tick before s ≡ (ok (snapshot s), s))
      × (s1.state ≡ recovering)
      × (s1.deadline ≡ some (first + s.config.heartbeat_timeout_ticks))
      × (s1.next_sequence ≡ s.next_sequence)
      × (s2.state ≡ failed)
      × (s2.next_sequence ≡ 1)
      × (s2.deadline ≡ none)
unfolding tick timed_out
tick_twice s d before first second st dl h1 h2 h3 h4 = (
  ground arith,
  ground arith,
  ground arith,
  ground arith,
  ground arith,
  ground arith,
  ground arith,
)

-- With a logon timeout of zero ticks, the clock fails the session at the very tick at which the
-- logon was sent: zero does not disable the deadline.
pub zero_timeout_fires :
    (s : SessionStateMachine) (now : ℕ)
    → s.state ≡ connecting
    → s.config.logon_timeout_ticks ≡ 0
    → now < u64_mod
    → (tick now (handle logon_sent now s).1).1.state ≡ failed
unfolding tick timed_out handle
zero_timeout_fires s now st z h =
    subst (λ e. (tick now (dispatch e logon_sent now s).1).1.state ≡ failed) (sym st) (ground arith)
