-- ===== src/Machine/History.antt =====
-- Any sequence of calls, refused ones included: what is recorded while a scan is paused.
use security_tool.Prelude.{
  ◌≡◌, Option, none, some, Text, arith, ◌==◌, Bool-cases, inl, inr, ◌⊎◌, List, [], ◌∷◌,
  if◌then◌else◌,
}
use security_tool.Machine.{
  ScanState, paused, failed, state_eq, state_index, ScanStateMachine, can_transition, transition,
  resume, perform, Call, after, run_calls, to, back,
}
use security_tool.Machine.Laws.{IsLive, queued_live, ◌⟶◌, start, pause, can_transition_iff}

-- While paused, a live state to resume into is recorded.
abbrev pub Resumable : ScanState → Option ScanState → Type 0
Resumable paused none = ⊥
Resumable paused (some s) = IsLive s
Resumable _ _ = Unit

abbrev pub IsResumable : ScanStateMachine → Type 0
IsResumable m = Resumable m.current m.paused_from

IsLive-Resumable : {s : ScanState} (o : Option ScanState) → IsLive s → Resumable s o
IsLive-Resumable o queued_live = tt
IsLive-Resumable o _ = tt

⟶-Resumable :
    {s t : ScanState} (o : Option ScanState)
    → s ⟶ t
    → Resumable t (if t == paused then some s else o)
unfolding state_index
⟶-Resumable o (pause h) = h
⟶-Resumable o start = tt
⟶-Resumable o _ = tt

resume-Resumable :
    (s : ScanState) (o : Option ScanState) (r : Option Text)
    → Resumable s o
    → let m : ScanStateMachine = record { current = s; paused_from = o; fail_reason = r } in
      IsResumable (after (resume m) m)
unfolding after resume
resume-Resumable paused none r h = absurd h
resume-Resumable paused (some s) r h = IsLive-Resumable none h
resume-Resumable _ o r h = h

-- The machine after an accepted call, or as it was.
abbrev pub moved : ScanState → Option Text → ScanStateMachine → ScanStateMachine
moved t r m = record {
  current = t;
  paused_from = if t == paused then some m.current else m.paused_from;
  fail_reason = if t == failed then r else m.fail_reason;
}

pub after-transition :
    (t : ScanState) (r : Option Text) (m : ScanStateMachine)
    → ((m.current ⟶ t) × (after (transition t r m) m ≡ moved t r m))
      ⊎ (after (transition t r m) m ≡ m)
unfolding after transition
after-transition t r m = elim (Bool-cases (can_transition m t)) [
  | inl y ↦ inl ((can_transition_iff m t).0 y, ground arith)
  | inr n ↦ inr (rw n)
]

after-perform-IsResumable :
    (c : Call) (m : ScanStateMachine) → IsResumable m → IsResumable (after (perform c m) m)
unfolding perform
after-perform-IsResumable (to t r) m h = elim (after-transition t r m) [
  | inl (e, q) ↦ rw q (⟶-Resumable m.paused_from e)
  | inr q ↦ rw q h
]
after-perform-IsResumable back m h = resume-Resumable m.current m.paused_from m.fail_reason h

-- After any calls on a new scan, a paused machine has a live state to resume into.
pub run_calls-IsResumable :
    (cs : List Call) (m : ScanStateMachine) → IsResumable m → IsResumable (run_calls cs m)
unfolding run_calls
run_calls-IsResumable [] m h = h
run_calls-IsResumable (c ∷ cs) m h =
    run_calls-IsResumable cs (after (perform c m) m) (after-perform-IsResumable c m h)
