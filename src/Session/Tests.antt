-- ===== src/Session/Tests.antt =====
-- Runs of one session.
use deterministic_exchange_r.Prelude.{◌≡◌, refl, ◌↔◌, List, [], ◌∷◌, none, some, arith}
use deterministic_exchange_r.Prelude.Outcome.{ok}
use deterministic_exchange_r.Session.{
  connecting, active, recovering, failed, SessionConfig, SessionStateMachine, Transition, Input,
  event, clock, connect, logon_sent, logon_accepted, command, gap, snapshot, new, run, step, handle,
  tick, dispatch, accept_command, accept_logon, timed_out,
}
use deterministic_exchange_r.Session.Refusal.{step-refused}
use deterministic_exchange_r.Session.Invariant.{IsValid, run-new-IsValid, run-failed}
use deterministic_exchange_r.Session.Sequencing.{Admits, admitted, armed, handle_command}
use deterministic_exchange_r.Session.Runs.{accepted, ConsecutiveFrom, accepted-ConsecutiveFrom}
use deterministic_exchange_r.Session.Timeouts.{tick_twice, zero_timeout_fires}

abbrev config : SessionConfig
config = record { logon_timeout_ticks = 5; heartbeat_timeout_ticks = 10 }

abbrev opening : List Input
opening = event connect 1 ∷ event logon_sent 2 ∷ event (logon_accepted 7) 3 ∷ []

abbrev opened : SessionStateMachine
opened = record {
  state = active;
  config = config;
  next_sequence = 7;
  deadline = some 13;
  heartbeat_timeouts = 0;
}

opening-opened : run opening (new config) ≡ opened
unfolding run step handle dispatch accept_logon new
opening-opened = refl

-- A command, a gap, the next command, a timeout, and the recovery from it.
abbrev traffic : List Input
traffic =
    event (command 7) 4
    ∷ event (command 9) 5
    ∷ event (command 8) 6
    ∷ clock 20
    ∷ event (command 9) 21
    ∷ []

opened-IsValid : IsValid opened
opened-IsValid = record { timed = refl; timeouts = refl; started = omega arith; fits = omega arith }

traffic-accepted : accepted traffic opened ≡ 7 ∷ 8 ∷ 9 ∷ []
unfolding accepted step handle tick dispatch accept_command timed_out
traffic-accepted = refl

accepted-ConsecutiveFrom_example : ConsecutiveFrom 7 (accepted traffic opened)
accepted-ConsecutiveFrom_example =
    accepted-ConsecutiveFrom traffic opened (tt, (tt, (tt, (tt, (tt, tt)))))
      (omega arith, (omega arith, (omega arith, (tt, (omega arith, tt))))) opened-IsValid

step-refused_example : (step (event (command 9) 5) opened).1 ≡ opened
unfolding step handle dispatch accept_command
step-refused_example = step-refused (event (command 9) 5) opened {e = gap 7 9} refl

run-new-IsValid_example : IsValid (run opening (new config))
run-new-IsValid_example = run-new-IsValid config opening (tt, (tt, (omega arith, tt)))

abbrev broken : SessionStateMachine
broken = record {
  state = failed;
  config = config;
  next_sequence = 1;
  deadline = none;
  heartbeat_timeouts = 0;
}

run-failed_example : (run opening broken).state ≡ failed
run-failed_example =
    run-failed opening broken (tt, (tt, (omega arith, tt)))
      (record { timed = refl; timeouts = refl; started = omega arith; fits = omega arith }) refl

tick_twice_example :
    (tick 12 opened ≡ (ok (snapshot opened), opened))
    × ((tick 13 opened).1.state ≡ recovering)
    × ((tick 13 opened).1.deadline ≡ some 23)
    × ((tick 13 opened).1.next_sequence ≡ 7)
    × ((tick 30 (tick 13 opened).1).1.state ≡ failed)
    × ((tick 30 (tick 13 opened).1).1.next_sequence ≡ 1)
    × ((tick 30 (tick 13 opened).1).1.deadline ≡ none)
tick_twice_example =
    tick_twice opened 13 12 13 30 refl refl (omega arith) (omega arith) (omega arith) (omega arith)

abbrev without_timeout : SessionStateMachine
without_timeout = record {
  state = connecting;
  config = record { logon_timeout_ticks = 0; heartbeat_timeout_ticks = 10 };
  next_sequence = 1;
  deadline = none;
  heartbeat_timeouts = 0;
}

handle_command_example :
    (((t : Transition) × ((handle (command 7) 4 opened).0 ≡ ok t)) ↔ Admits opened 7 4)
    × (Admits opened 7 4 → handle (command 7) 4 opened ≡ (ok (armed opened 4), admitted opened 4))
handle_command_example = handle_command 7 4 opened

zero_timeout_fires_example : (tick 4 (handle logon_sent 4 without_timeout).1).1.state ≡ failed
zero_timeout_fires_example = zero_timeout_fires without_timeout 4 refl refl (omega arith)
