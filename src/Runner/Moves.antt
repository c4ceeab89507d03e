-- ===== src/Runner/Moves.antt =====
-- Runs that go on in a state of the machine, and runs that have returned in one.
use security_tool.Prelude.{true, none, ◌∙◌, ◌≡◌, refl, ok, raise, ◌>>=◌}
use security_tool.Machine.{
  ScanState, phase_name_eq, state_eq, ScanStateMachine, transition, can_transition, is_terminal,
  linear_transitions,
}
use security_tool.Runner.{Run, advance, returned, raised, Session, session_at_end, invalid}

-- The machine and the scan's row are both in a state.
abbrev pub At : ScanState → Session → Type 0
At st s = (s.machine.current ≡ st) × (s.scan.state ≡ st)

-- A run goes on in a state, or it has returned with the row in one.
unfoldable pub Goes : ScanState → Run → Type 0
Goes st (ok s) = At st s
Goes st (raise x) = ⊥

unfoldable pub Stops : ScanState → Run → Type 0
Stops st (ok s) = ⊥
Stops st (raise (returned s)) = s.scan.state ≡ st
Stops st (raise (invalid e s)) = ⊥
Stops st (raise (raised e s)) = ⊥

pub Goes-then :
    (a b : ScanState) (o : Run) (next : Session → Run)
    → Goes a o
    → ((s : Session) → At a s → Goes b (next s))
    → Goes b (o >>= next)
unfolding Goes
Goes-then a b (ok s) next h k = k s h
Goes-then a b (raise x) next h k = absurd h

pub Stops-then :
    (a b : ScanState) (o : Run) (next : Session → Run)
    → Goes a o
    → ((s : Session) → At a s → Stops b (next s))
    → Stops b (o >>= next)
unfolding Goes
Stops-then a b (ok s) next h k = k s h
Stops-then a b (raise x) next h k = absurd h

pub Stops-bind : (b : ScanState) (o : Run) (next : Session → Run) → Stops b o → Stops b (o >>= next)
unfolding Stops
Stops-bind b (ok s) next h = absurd h
Stops-bind b (raise (returned s)) next h = h
Stops-bind b (raise (invalid e s)) next h = absurd h
Stops-bind b (raise (raised e s)) next h = absurd h

pub Stops-end : (b : ScanState) (o : Run) → Stops b o → (session_at_end o).scan.state ≡ b
unfolding Stops
Stops-end b (ok s) h = absurd h
Stops-end b (raise (returned s)) h = h
Stops-end b (raise (invalid e s)) h = absurd h
Stops-end b (raise (raised e s)) h = absurd h

pub Goes-end : (b : ScanState) (o : Run) → Goes b o → (session_at_end o).scan.state ≡ b
unfolding Goes
Goes-end b (ok s) h = h.1
Goes-end b (raise x) h = absurd h

abbrev machine_at : ScanState → ScanStateMachine
machine_at a = record { current = a; paused_from = none; fail_reason = none }

can_transition-current :
    (m : ScanStateMachine) (a b : ScanState)
    → m.current ≡ a
    → can_transition m b ≡ can_transition (machine_at a) b
unfolding can_transition is_terminal linear_transitions
can_transition-current m a b e = rw e refl

pub advance-Goes :
    (a b : ScanState) (s : Session)
    → can_transition (machine_at a) b ≡ true
    → At a s
    → Goes b (advance b s)
unfolding Goes transition
advance-Goes a b s k h =
    let e : can_transition s.machine b ≡ true = can_transition-current s.machine a b h.0 ∙ k in
    rw e (refl, refl)
