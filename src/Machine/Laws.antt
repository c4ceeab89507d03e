-- ===== src/Machine/Laws.antt =====
-- One call of the machine: the diagram that it follows, absorption, pausing and resuming.
use security_tool.Prelude.{
  true, false, ◌≡◌, refl, Option, none, Text, arith, ◌==◌, ok, raise, ◌>>=◌, ◌↔◌,
}
use security_tool.Machine.{
  ScanState, queued, scope_verifying, blocked_unverified, recon, auth_establishing, failed_auth,
  crawling, surface_mapping, passive_checks, testing, verifying, triaging, reporting, complete,
  paused, cancelled, failed, state_eq, ScanStateMachine, is_terminal, can_transition, transition,
  resume, perform, Call, MachineError, invalid_transition, resume_not_paused, to, back,
}

-- The states that a scan can still leave.
pub data IsLive : ScanState → Type 0 where
  queued_live : IsLive queued
  scope_live : IsLive scope_verifying
  recon_live : IsLive recon
  auth_live : IsLive auth_establishing
  crawling_live : IsLive crawling
  surface_live : IsLive surface_mapping
  passive_live : IsLive passive_checks
  testing_live : IsLive testing
  verifying_live : IsLive verifying
  triaging_live : IsLive triaging
  reporting_live : IsLive reporting

-- The life cycle of docs/01-architecture.md, section 5, as a diagram.
infix 40 ◌⟶◌
pub data ◌⟶◌ : ScanState → ScanState → Type 0 where
  start : queued ⟶ scope_verifying
  pass_scope : scope_verifying ⟶ recon
  block : scope_verifying ⟶ blocked_unverified
  log_in : recon ⟶ auth_establishing
  crawl : auth_establishing ⟶ crawling
  lock_out : auth_establishing ⟶ failed_auth
  map_surface : crawling ⟶ surface_mapping
  look : surface_mapping ⟶ passive_checks
  test : passive_checks ⟶ testing
  verify : testing ⟶ verifying
  triage : verifying ⟶ triaging
  report : triaging ⟶ reporting
  finish : reporting ⟶ complete
  pause : {s : ScanState} → IsLive s → s ⟶ paused
  cancel : {s : ScanState} → IsLive s → s ⟶ cancelled
  fail : {s : ScanState} → IsLive s → s ⟶ failed
  cancel_paused : paused ⟶ cancelled
  fail_paused : paused ⟶ failed

pub ruleset live_states = (
  queued_live, scope_live, recon_live, auth_live, crawling_live, surface_live, passive_live,
  testing_live, verifying_live, triaging_live, reporting_live,
)

ruleset edges = (
  start, pass_scope, block, log_in, crawl, lock_out, map_surface, look, test, verify, triage,
  report, finish, pause, cancel, fail, cancel_paused, fail_paused, live_states,
)

allowed-⟶ :
    (s t : ScanState) (o : Option ScanState) (r : Option Text)
    → can_transition (record { current = s; paused_from = o; fail_reason = r }) t ≡ true
    → s ⟶ t
unfolding can_transition
allowed-⟶ queued t o r h = grind (arith, edges)
allowed-⟶ s t o r h = grind (arith, edges)

live_can_stop :
    (s : ScanState) (o : Option ScanState) (r : Option Text)
    → IsLive s
    → let m : ScanStateMachine = record { current = s; paused_from = o; fail_reason = r } in
      (can_transition m paused ≡ true)
      × (can_transition m cancelled ≡ true)
      × (can_transition m failed ≡ true)
unfolding can_transition
live_can_stop s o r queued_live = (refl, refl, refl)
live_can_stop s o r _ = (refl, refl, refl)

⟶-allowed :
    {s t : ScanState} (o : Option ScanState) (r : Option Text)
    → s ⟶ t
    → can_transition (record { current = s; paused_from = o; fail_reason = r }) t ≡ true
unfolding can_transition
⟶-allowed o r start = refl
⟶-allowed {s} o r (pause h) = (live_can_stop s o r h).0
⟶-allowed {s} o r (cancel h) = (live_can_stop s o r h).1
⟶-allowed {s} o r (fail h) = (live_can_stop s o r h).2
⟶-allowed o r _ = refl

-- The code accepts a transition exactly when the diagram has an edge for it.
pub can_transition_iff :
    (m : ScanStateMachine) (t : ScanState) → (can_transition m t ≡ true) ↔ (m.current ⟶ t)
can_transition_iff m t =
    (allowed-⟶ m.current t m.paused_from m.fail_reason, ⟶-allowed m.paused_from m.fail_reason)

pub transition_refused :
    (t : ScanState) (r : Option Text) (m : ScanStateMachine)
    → can_transition m t ≡ false
    → transition t r m ≡ raise (invalid_transition m.current t)
unfolding transition
transition_refused t r m h = rw h

terminal_refuses :
    (m : ScanStateMachine) (t : ScanState) → is_terminal m ≡ true → can_transition m t ≡ false
unfolding can_transition
terminal_refuses m t h = rw h

terminal-not-paused : (m : ScanStateMachine) → is_terminal m ≡ true → (m.current == paused) ≡ false
unfolding is_terminal
terminal-not-paused m h = ground arith

-- A terminal machine refuses every transition and every resume.
pub perform-terminal :
    (c : Call) (m : ScanStateMachine)
    → is_terminal m ≡ true
    → (e : MachineError) × (perform c m ≡ raise e)
unfolding perform resume
perform-terminal (to t r) m h =
    (invalid_transition m.current t, transition_refused t r m (terminal_refuses m t h))
perform-terminal back m h = (resume_not_paused m.current, rw (terminal-not-paused m h))

-- A pause followed by a resume gives back the machine, with no origin recorded.
pub resume-transition_paused :
    (reason : Option Text) (m : ScanStateMachine)
    → can_transition m paused ≡ true
    → (transition paused reason m >>= resume) ≡ ok (record m { paused_from = none })
unfolding transition resume
resume-transition_paused reason m h = rw h refl
