-- ===== src/Machine/Progress.antt =====
-- Any sequence of calls, refused ones included: which states a scan has passed, and that a scan
-- which has not ended can still be completed.
use security_tool.Prelude.{
  true, false, ◌≡◌, refl, sym, Option, subst, none, some, Text, arith, ◌==◌, contains, inl, inr,
  ◌⊎◌, List, [], ◌∷◌, All, if◌then◌else◌,
}
use security_tool.Machine.{
  ScanState, queued, scope_verifying, recon, auth_establishing, crawling, surface_mapping,
  passive_checks, testing, verifying, triaging, reporting, complete, paused, state_eq, state_index,
  ScanStateMachine, is_terminal, can_transition, transition, resume, perform, Call, after,
  run_calls, to, back, trail,
}
use security_tool.Machine.Laws.{
  IsLive, queued_live, live_states, ◌⟶◌, start, pass_scope, log_in, crawl, map_surface, look, test,
  verify, triage, report, finish, pause,
}
use security_tool.Machine.History.{after-transition, IsResumable, Resumable}

-- The states that a scan in a given state has passed, its own included.
abbrev pub behind : ScanState → List ScanState
behind queued = queued ∷ []
behind scope_verifying = scope_verifying ∷ queued ∷ []
behind recon = recon ∷ scope_verifying ∷ queued ∷ []
behind auth_establishing = auth_establishing ∷ recon ∷ scope_verifying ∷ queued ∷ []
behind crawling = crawling ∷ auth_establishing ∷ recon ∷ scope_verifying ∷ queued ∷ []
behind surface_mapping =
    surface_mapping ∷ crawling ∷ auth_establishing ∷ recon ∷ scope_verifying ∷ queued ∷ []
behind passive_checks =
    passive_checks ∷ surface_mapping ∷ crawling ∷ auth_establishing ∷ recon ∷ scope_verifying
    ∷ queued ∷ []
behind testing =
    testing ∷ passive_checks ∷ surface_mapping ∷ crawling ∷ auth_establishing ∷ recon
    ∷ scope_verifying ∷ queued ∷ []
behind verifying =
    verifying ∷ testing ∷ passive_checks ∷ surface_mapping ∷ crawling ∷ auth_establishing ∷ recon
    ∷ scope_verifying ∷ queued ∷ []
behind triaging =
    triaging ∷ verifying ∷ testing ∷ passive_checks ∷ surface_mapping ∷ crawling ∷ auth_establishing
    ∷ recon ∷ scope_verifying ∷ queued ∷ []
behind reporting =
    reporting ∷ triaging ∷ verifying ∷ testing ∷ passive_checks ∷ surface_mapping ∷ crawling
    ∷ auth_establishing ∷ recon ∷ scope_verifying ∷ queued ∷ []
behind complete =
    complete ∷ reporting ∷ triaging ∷ verifying ∷ testing ∷ passive_checks ∷ surface_mapping
    ∷ crawling ∷ auth_establishing ∷ recon ∷ scope_verifying ∷ queued ∷ []
behind _ = []

-- Where the work stands: a paused scan stands where it was paused.
abbrev pub position : ScanState → Option ScanState → ScanState
position paused (some s) = s
position s o = s

abbrev Covered : List ScanState → ScanState → Type 0
Covered seen s = All (λ t. contains seen t ≡ true) (behind s)

mono :
    (t : ScanState) (seen xs : List ScanState)
    → All (λ x. contains seen x ≡ true) xs
    → All (λ x. contains (t ∷ seen) x ≡ true) xs
unfolding contains
mono t seen [] h = tt
mono t seen (x ∷ xs) h = (ground (arith, h.0), mono t seen xs h.1)

live_position : {s : ScanState} (o : Option ScanState) → IsLive s → position s o ≡ s
live_position o queued_live = refl
live_position o _ = refl

next :
    (s t : ScanState) (seen : List ScanState)
    → Covered seen s
    → behind t ≡ t ∷ behind s
    → Covered (t ∷ seen) t
unfolding contains state_index
next s t seen h e = rw e ((ground arith), mono t seen (behind s) h)

⟶-Covered :
    {s t : ScanState} (o : Option ScanState) (seen : List ScanState)
    → s ⟶ t
    → Covered seen (position s o)
    → Covered (t ∷ seen) (position t (if t == paused then some s else o))
unfolding state_index
⟶-Covered {s} o seen (pause live) h = mono paused seen (behind s) (rw (live_position o live) at h)
⟶-Covered o seen start h = next queued scope_verifying seen h refl
⟶-Covered o seen pass_scope h = next scope_verifying recon seen h refl
⟶-Covered o seen log_in h = next recon auth_establishing seen h refl
⟶-Covered o seen crawl h = next auth_establishing crawling seen h refl
⟶-Covered o seen map_surface h = next crawling surface_mapping seen h refl
⟶-Covered o seen look h = next surface_mapping passive_checks seen h refl
⟶-Covered o seen test h = next passive_checks testing seen h refl
⟶-Covered o seen verify h = next testing verifying seen h refl
⟶-Covered o seen triage h = next verifying triaging seen h refl
⟶-Covered o seen report h = next triaging reporting seen h refl
⟶-Covered o seen finish h = next reporting complete seen h refl
⟶-Covered o seen _ h = tt

position_unpaused : (s : ScanState) → position s none ≡ s
position_unpaused paused = refl
position_unpaused _ = refl

resume-Covered :
    (s : ScanState) (o : Option ScanState) (r : Option Text) (seen : List ScanState)
    → Covered seen (position s o)
    → let m : ScanStateMachine = record { current = s; paused_from = o; fail_reason = r } in
      let n = after (resume m) m in Covered (n.current ∷ seen) (position n.current n.paused_from)
unfolding after resume
resume-Covered paused none r seen h = tt
resume-Covered paused (some s) r seen h = rw (position_unpaused s) (mono s seen (behind s) h)
resume-Covered s o r seen h = mono s seen (behind s) h

after-perform-Covered :
    (c : Call) (m : ScanStateMachine) (seen : List ScanState)
    → Covered seen (position m.current m.paused_from)
    → let n = after (perform c m) m in Covered (n.current ∷ seen) (position n.current n.paused_from)
unfolding perform
after-perform-Covered (to t r) m seen h = elim (after-transition t r m) [
  | inl (e, q) ↦ rw q (⟶-Covered m.paused_from seen e h)
  | inr q ↦ rw q (mono m.current seen (behind (position m.current m.paused_from)) h)
]
after-perform-Covered back m seen h = resume-Covered m.current m.paused_from m.fail_reason seen h

-- Whatever calls are made, accepted or not, a scan that stands in a state of the pipeline has been
-- in every state before it.
pub trail-behind :
    (cs : List Call) (m : ScanStateMachine) (seen : List ScanState)
    → All (λ s. contains seen s ≡ true) (behind (position m.current m.paused_from))
    → let n = run_calls cs m in
      All (λ s. contains (trail cs m seen) s ≡ true) (behind (position n.current n.paused_from))
unfolding run_calls trail
trail-behind [] m seen h = h
trail-behind (c ∷ cs) m seen h =
    let n = after (perform c m) m in
    trail-behind cs n (n.current ∷ seen) (after-perform-Covered c m seen h)

abbrev step_to : ScanState → Call
step_to s = to s none

-- The calls that complete a scan from a live state.
way : ScanState → List Call
way queued =
    step_to scope_verifying
    ∷ step_to recon
    ∷ step_to auth_establishing
    ∷ step_to crawling
    ∷ step_to surface_mapping
    ∷ step_to passive_checks
    ∷ step_to testing
    ∷ step_to verifying
    ∷ step_to triaging
    ∷ step_to reporting
    ∷ step_to complete
    ∷ []
way scope_verifying =
    step_to recon
    ∷ step_to auth_establishing
    ∷ step_to crawling
    ∷ step_to surface_mapping
    ∷ step_to passive_checks
    ∷ step_to testing
    ∷ step_to verifying
    ∷ step_to triaging
    ∷ step_to reporting
    ∷ step_to complete
    ∷ []
way recon =
    step_to auth_establishing
    ∷ step_to crawling
    ∷ step_to surface_mapping
    ∷ step_to passive_checks
    ∷ step_to testing
    ∷ step_to verifying
    ∷ step_to triaging
    ∷ step_to reporting
    ∷ step_to complete
    ∷ []
way auth_establishing =
    step_to crawling
    ∷ step_to surface_mapping
    ∷ step_to passive_checks
    ∷ step_to testing
    ∷ step_to verifying
    ∷ step_to triaging
    ∷ step_to reporting
    ∷ step_to complete
    ∷ []
way crawling =
    step_to surface_mapping
    ∷ step_to passive_checks
    ∷ step_to testing
    ∷ step_to verifying
    ∷ step_to triaging
    ∷ step_to reporting
    ∷ step_to complete
    ∷ []
way surface_mapping =
    step_to passive_checks
    ∷ step_to testing
    ∷ step_to verifying
    ∷ step_to triaging
    ∷ step_to reporting
    ∷ step_to complete
    ∷ []
way passive_checks =
    step_to testing
    ∷ step_to verifying
    ∷ step_to triaging
    ∷ step_to reporting
    ∷ step_to complete
    ∷ []
way testing = step_to verifying ∷ step_to triaging ∷ step_to reporting ∷ step_to complete ∷ []
way verifying = step_to triaging ∷ step_to reporting ∷ step_to complete ∷ []
way triaging = step_to reporting ∷ step_to complete ∷ []
way reporting = step_to complete ∷ []
way _ = []

way_works :
    {s : ScanState} (o : Option ScanState) (r : Option Text)
    → IsLive s
    → (run_calls (way s) (record { current = s; paused_from = o; fail_reason = r })).current
      ≡ complete
unfolding way run_calls transition can_transition
way_works o r queued_live = refl
way_works o r _ = refl

IsLive-or_paused :
    (s : ScanState) (o : Option ScanState) (r : Option Text)
    → is_terminal (record { current = s; paused_from = o; fail_reason = r }) ≡ false
    → IsLive s ⊎ (s ≡ paused)
unfolding is_terminal
IsLive-or_paused queued o r h = grind (arith, live_states)
IsLive-or_paused _ o r h = grind (arith, live_states)

wake :
    (o : Option ScanState) (r : Option Text)
    → Resumable paused o
    → (cs : List Call) × ((run_calls cs
          (record { current = paused; paused_from = o; fail_reason = r })).current
        ≡ complete)
unfolding run_calls resume
wake none r h = absurd h
wake (some s) r h = (back ∷ way s, way_works none r h)

wake_at :
    (s : ScanState) (o : Option ScanState) (r : Option Text)
    → s ≡ paused
    → Resumable s o
    → (cs : List Call) × ((run_calls cs
          (record { current = s; paused_from = o; fail_reason = r })).current
        ≡ complete)
wake_at s o r e =
    subst
      (λ t.
        Resumable t o
        → (cs : List Call) × ((run_calls cs
              (record { current = t; paused_from = o; fail_reason = r })).current
            ≡ complete))
      (sym e) (wake o r)

-- A scan that has not ended, paused or not, has calls that complete it.
pub can_complete :
    (m : ScanStateMachine)
    → IsResumable m
    → is_terminal m ≡ false
    → (cs : List Call) × ((run_calls cs m).current ≡ complete)
can_complete m h l = elim (IsLive-or_paused m.current m.paused_from m.fail_reason l) [
  | inl live ↦ (way m.current, way_works m.paused_from m.fail_reason live)
  | inr e ↦ wake_at m.current m.paused_from m.fail_reason e h
]
