-- ===== src/Session.antt =====
-- crates/hft-session/src/lib.rs: the session state machine. Time is a number that the caller gives.
pub mod Refusal
pub mod Invariant
pub mod Sequencing
pub mod Runs
pub mod Timeouts
mod Tests
use Prim.Native.String.{String}
use deterministic_exchange_r.Prelude.{
  ℕ, ◌+◌, ◌%◌, List, [], ◌∷◌, Bool, true, false, Option, none, some, ltb, ◌==◌, if◌then◌else◌,
}
use deterministic_exchange_r.Prelude.Words.{u32_mod, u64_mod, checked_add}
use deterministic_exchange_r.Prelude.Outcome.{Outcome, ok, err, ok_or}
use deterministic_exchange_r.Prelude.Effect.{
  Effect, ◌>>=◌, ◌>>◌, return, lift, fail, get, put, guard,
}
use deterministic_exchange_r.Types.{SequenceNumber}

pub data SessionState : Type 0 where
  disconnected connecting logon active recovering logout failed : SessionState

pub data SessionEvent : Type 0 where
  connect : SessionEvent
  logon_sent : SessionEvent
  logon_accepted : SequenceNumber → SessionEvent
  command : SequenceNumber → SessionEvent
  heartbeat_received : SessionEvent
  logout_sent : SessionEvent
  disconnect : SessionEvent
  fail_session : SessionEvent

pub data SessionError : Type 0 where
  invalid_transition : SessionState → String → SessionError
  gap : SequenceNumber → SequenceNumber → SessionError
  duplicate_sequence : SequenceNumber → SequenceNumber → SessionError
  not_active : SessionError
  arithmetic_overflow : SessionError

pub record SessionConfig : Type 0 where
  pub logon_timeout_ticks : ℕ
  pub heartbeat_timeout_ticks : ℕ

pub record Transition : Type 0 where
  pub state : SessionState
  pub deadline : Option ℕ

pub record SessionStateMachine : Type 0 where
  pub state : SessionState
  pub config : SessionConfig
  pub next_sequence : ℕ
  pub deadline : Option ℕ
  pub heartbeat_timeouts : ℕ

abbrev pub Step : Type 0 → Type 0
Step A = Effect SessionStateMachine SessionError A

unfoldable pub new : SessionConfig → SessionStateMachine
new config = record {
  state = disconnected;
  config = config;
  next_sequence = 1;
  deadline = none;
  heartbeat_timeouts = 0;
}

unfoldable pub allows_commands : SessionState → Bool
allows_commands active = true
allows_commands recovering = true
allows_commands _ = false

abbrev pub snapshot : SessionStateMachine → Transition
snapshot s = record { state = s.state; deadline = s.deadline }

-- The caller's `Ok(self.enter(..))`.
abbrev pub enter : SessionState → Option ℕ → Step Transition
enter state deadline s =
    let s' : SessionStateMachine = record s { state = state; deadline = deadline } in
    (ok (snapshot s'), s')

abbrev pub arm : SessionState → ℕ → ℕ → Step Transition
arm state timeout now = do
  deadline ← lift (ok_or (checked_add u64_mod now timeout) arithmetic_overflow)
  enter state (some deadline)

abbrev pub reset : Step (Unit {0})
reset s = (ok tt, record s { next_sequence = 1; deadline = none; heartbeat_timeouts = 0 })

abbrev pub event_name : SessionEvent → String
event_name connect = "connect"
event_name logon_sent = "logon_sent"
event_name (logon_accepted _) = "logon_accepted"
event_name (command _) = "command"
event_name heartbeat_received = "heartbeat_received"
event_name logout_sent = "logout_sent"
event_name disconnect = "disconnect"
event_name fail_session = "fail"

-- The two assignments after a command or a logon has armed the heartbeat.
abbrev pub expect : ℕ → Step (Unit {0})
expect next s = (ok tt, record s { next_sequence = next; heartbeat_timeouts = 0 })

unfoldable pub accept_logon : SequenceNumber → ℕ → Step Transition
accept_logon first now s =
    if first == 0
    then (err arithmetic_overflow, s)
    else (do
      transition ← arm active s.config.heartbeat_timeout_ticks now
      expect first
      return transition)
        s

unfoldable pub accept_command : SequenceNumber → ℕ → Step Transition
accept_command received now s =
    if ltb received s.next_sequence
    then (err (duplicate_sequence received s.next_sequence), s)
    else if ltb s.next_sequence received
    then (err (gap s.next_sequence received), s)
    else (do
      next ← lift (ok_or (checked_add u64_mod s.next_sequence 1) arithmetic_overflow)
      transition ← arm active s.config.heartbeat_timeout_ticks now
      expect next
      return transition)
        s

-- The `match (self.state, event)` of `handle`.
unfoldable pub dispatch : SessionState → SessionEvent → ℕ → Step Transition
unfolding accept_logon accept_command
dispatch disconnected connect now = enter connecting none
dispatch connecting logon_sent now = λ s. arm logon s.config.logon_timeout_ticks now s
dispatch logon (logon_accepted first) now = accept_logon first now
dispatch active (command sequence) now = accept_command sequence now
dispatch recovering (command sequence) now = accept_command sequence now
dispatch active heartbeat_received now = λ s. arm active s.config.heartbeat_timeout_ticks now s
dispatch connecting logout_sent now = enter logout none
dispatch logon logout_sent now = enter logout none
dispatch active logout_sent now = enter logout none
dispatch recovering logout_sent now = enter logout none
dispatch failed disconnect now = fail (invalid_transition failed (event_name disconnect))
dispatch _ disconnect now = reset >> enter disconnected none
dispatch _ fail_session now = reset >> enter failed none
dispatch state event now = fail (invalid_transition state (event_name event))

unfoldable pub handle : SessionEvent → ℕ → Step Transition
unfolding dispatch
handle event now s = dispatch s.state event now s

-- The `match self.state` of `tick`, once the deadline has been crossed. The count of timeouts is a
-- u32, here with the wrap-around of a release build.
unfoldable pub timed_out : SessionState → ℕ → Step Transition
timed_out logon now = reset >> enter failed none
timed_out active now = λ s.
    (do
      deadline ←
          lift
            (ok_or (checked_add u64_mod now s.config.heartbeat_timeout_ticks) arithmetic_overflow)
      put (record s { heartbeat_timeouts = (s.heartbeat_timeouts + 1) % u32_mod })
      enter recovering (some deadline))
      s
timed_out recovering now = λ s.
    (do
      put (record s { heartbeat_timeouts = (s.heartbeat_timeouts + 1) % u32_mod })
      reset
      enter failed none)
      s
timed_out _ now = λ s. (ok (snapshot s), s)

unfoldable pub tick : ℕ → Step Transition
unfolding timed_out
tick now s = elim s.deadline [
  | none ↦ (ok (snapshot s), s)
  | some deadline ↦ if ltb now deadline then (ok (snapshot s), s) else timed_out s.state now s
]

-- What drives the machine: an event or the clock, each at a time.
pub data Input : Type 0 where
  event : SessionEvent → ℕ → Input
  clock : ℕ → Input

unfoldable pub step : Input → Step Transition
unfolding handle tick
step (event e now) = handle e now
step (clock now) = tick now

unfoldable pub run : List Input → SessionStateMachine → SessionStateMachine
run [] s = s
run (i ∷ is) s = run is (step i s).1
