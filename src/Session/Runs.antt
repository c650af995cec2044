-- ===== src/Session/Runs.antt =====
-- The commands that a session accepts over a run.
use deterministic_exchange_r.Prelude.{
  ℕ, ◌+◌, ◌≡◌, refl, ◌∙◌, ◌⊎◌, inl, inr, Bool, true, false, List, [], ◌∷◌, arith, if◌then◌else◌,
}
use deterministic_exchange_r.Prelude.Outcome.{Outcome, ok}
use deterministic_exchange_r.Types.{SequenceNumber}
use deterministic_exchange_r.Session.{
  SessionState, active, recovering, failed, connect, logon_sent, logon_accepted, command,
  heartbeat_received, logout_sent, disconnect, fail_session, SessionStateMachine, Input, event,
  clock, allows_commands, accept_command, dispatch, handle, timed_out, tick, step,
}
use deterministic_exchange_r.Session.Invariant.{IsValid, AllFit, step-IsValid, step-failed}
use deterministic_exchange_r.Session.Sequencing.{Admits, dispatch-admitted}

-- Traffic: what a session sees between its logon and its end.
abbrev pub IsTraffic : Input → Type 0
IsTraffic (event (command q) now) = Unit {0}
IsTraffic (event heartbeat_received now) = Unit {0}
IsTraffic (clock now) = Unit {0}
IsTraffic _ = ⊥

abbrev pub AllTraffic : List Input → Type 0
AllTraffic [] = Unit {0}
AllTraffic (i ∷ is) = IsTraffic i × AllTraffic is

abbrev pub is_ok {ℓ κ} : {E : Type ℓ} {A : Type κ} → Outcome E A → Bool
is_ok (ok _) = true
is_ok _ = false

-- the command that an input offers
abbrev pub offered : Input → List SequenceNumber → List SequenceNumber
offered (event (command q) now) rest = q ∷ rest
offered _ rest = rest

-- The numbers of the commands that a run accepts, in order.
unfoldable pub accepted : List Input → SessionStateMachine → List SequenceNumber
unfolding step
accepted [] s = []
accepted (i ∷ is) s =
    let rest = accepted is (step i s).1 in if is_ok (step i s).0 then offered i rest else rest

abbrev pub ConsecutiveFrom : ℕ → List ℕ → Type 0
ConsecutiveFrom n [] = Unit {0}
ConsecutiveFrom n (x ∷ xs) = (x ≡ n) × ConsecutiveFrom (n + 1) xs

-- A command is admitted, or leaves the session alone.
accept_command-cases :
    (q now : ℕ) (s : SessionStateMachine)
    → allows_commands s.state ≡ true
    → Admits s q now ⊎ (is_ok (accept_command q now s).0 ≡ false) × ((accept_command q now s).1 ≡ s)
unfolding accept_command
accept_command-cases q now s o = ground arith

dispatch-cases :
    (st : SessionState) (q now : ℕ) (s : SessionStateMachine)
    → s.state ≡ st
    → Admits s q now
      ⊎ (is_ok (dispatch st (command q) now s).0 ≡ false) × ((dispatch st (command q) now s).1 ≡ s)
unfolding dispatch allows_commands
dispatch-cases active q now s e = accept_command-cases q now s (ground arith)
dispatch-cases recovering q now s e = accept_command-cases q now s (ground arith)
dispatch-cases _ q now s e = inr (refl, refl)

next-heartbeat :
    (st : SessionState) (now : ℕ) (s : SessionStateMachine)
    → (dispatch st heartbeat_received now s).1.next_sequence ≡ s.next_sequence
unfolding dispatch
next-heartbeat active now s = ground arith
next-heartbeat _ now s = refl

next-tick :
    (now : ℕ) (s : SessionStateMachine)
    → ((tick now s).1.next_sequence ≡ s.next_sequence) ⊎ ((tick now s).1.state ≡ failed)
unfolding tick timed_out
next-tick now s = ground arith

step-failed_refuses :
    (i : Input) (s : SessionStateMachine) (rest : List SequenceNumber)
    → IsTraffic i
    → IsValid s
    → s.state ≡ failed
    → (if is_ok (step i s).0 then offered i rest else rest) ≡ rest
unfolding step handle dispatch
step-failed_refuses (event (command q) now) s rest t v e = ground arith
step-failed_refuses (event heartbeat_received now) s rest t v e = ground arith
step-failed_refuses (event connect now) s rest t v e = absurd t
step-failed_refuses (event logon_sent now) s rest t v e = absurd t
step-failed_refuses (event (logon_accepted q) now) s rest t v e = absurd t
step-failed_refuses (event logout_sent now) s rest t v e = absurd t
step-failed_refuses (event disconnect now) s rest t v e = absurd t
step-failed_refuses (event fail_session now) s rest t v e = absurd t
step-failed_refuses (clock now) s rest t v e = ground arith

accepted-failed :
    (is : List Input) (s : SessionStateMachine)
    → AllTraffic is
    → AllFit is
    → IsValid s
    → s.state ≡ failed
    → accepted is s ≡ []
unfolding accepted
accepted-failed [] s t h v e = refl
accepted-failed (i ∷ is) s t h v e =
    step-failed_refuses i s (accepted is (step i s).1) t.0 v e
    ∙ accepted-failed is (step i s).1 t.1 h.1 (step-IsValid i s h.0 v) (step-failed i s v e)

if_same {ℓ} : {A : Type ℓ} (b : Bool) (x : A) → (if b then x else x) ≡ x
if_same true x = refl
if_same false x = refl

-- Each kind of traffic, given what the rest of the run accepts.
module _ (s : SessionStateMachine) (now : ℕ) (xs : List SequenceNumber) where
  command_consecutive :
      (q : ℕ)
      → ConsecutiveFrom (step (event (command q) now) s).1.next_sequence xs
      → ConsecutiveFrom s.next_sequence
          (if is_ok (step (event (command q) now) s).0 then q ∷ xs else xs)
  unfolding step handle
  command_consecutive q rest = elim (dispatch-cases s.state q now s refl) [
    | inl a ↦ let e = dispatch-admitted s.state q now s refl a in rw e (a.expected, rw e at rest)
    | inr r ↦ rw r.0 (rw r.1 at rest)
  ]

  heartbeat_consecutive :
      ConsecutiveFrom (step (event heartbeat_received now) s).1.next_sequence xs
      → ConsecutiveFrom s.next_sequence
          (if is_ok (step (event heartbeat_received now) s).0 then xs else xs)
  unfolding step handle
  heartbeat_consecutive rest =
      rw (if_same (is_ok (dispatch s.state heartbeat_received now s).0) xs)
        (rw (next-heartbeat s.state now s) at rest)

  clock_consecutive :
      ConsecutiveFrom (step (clock now) s).1.next_sequence xs
      → ((step (clock now) s).1.state ≡ failed → xs ≡ [])
      → ConsecutiveFrom s.next_sequence xs
  unfolding step
  clock_consecutive rest none_left = elim (next-tick now s) [
    | inl e ↦ rw e at rest
    | inr e ↦ rw (none_left e) tt
  ]

-- While only commands, heartbeats and the clock reach it, a valid session accepts commands with
-- consecutive numbers, from the one that it expects: no gap, no duplicate, no reordering.
pub accepted-ConsecutiveFrom :
    (is : List Input) (s : SessionStateMachine)
    → AllTraffic is
    → AllFit is
    → IsValid s
    → ConsecutiveFrom s.next_sequence (accepted is s)
unfolding accepted
accepted-ConsecutiveFrom [] s t h v = tt
accepted-ConsecutiveFrom (event (command q) now ∷ is) s t h v =
    let rest =
      accepted-ConsecutiveFrom is (step (event (command q) now) s).1 t.1 h.1
        (step-IsValid (event (command q) now) s h.0 v) in
    command_consecutive s now _ q rest
accepted-ConsecutiveFrom (event heartbeat_received now ∷ is) s t h v =
    heartbeat_consecutive s now _ (
      accepted-ConsecutiveFrom is (step (event heartbeat_received now) s).1 t.1 h.1
        (step-IsValid (event heartbeat_received now) s h.0 v))
accepted-ConsecutiveFrom (event connect now ∷ is) s t h v = absurd t.0
accepted-ConsecutiveFrom (event logon_sent now ∷ is) s t h v = absurd t.0
accepted-ConsecutiveFrom (event (logon_accepted q) now ∷ is) s t h v = absurd t.0
accepted-ConsecutiveFrom (event logout_sent now ∷ is) s t h v = absurd t.0
accepted-ConsecutiveFrom (event disconnect now ∷ is) s t h v = absurd t.0
accepted-ConsecutiveFrom (event fail_session now ∷ is) s t h v = absurd t.0
accepted-ConsecutiveFrom (clock now ∷ is) s t h v =
    let s' = (step (clock now) s).1 in
    let v' = step-IsValid (clock now) s h.0 v in
    rw (if_same (is_ok (step (clock now) s).0) (accepted is s')) (
      clock_consecutive s now (accepted is s') (accepted-ConsecutiveFrom is s' t.1 h.1 v')
        (accepted-failed is s' t.1 h.1 v'))
