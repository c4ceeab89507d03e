-- ===== src/Machine/Tests.antt =====
-- Runs of the machine, and the theorems of the modules beside this one at concrete machines.
use security_tool.Prelude.{true, ◌≡◌, ◌↔◌, refl, none, some, List, [], ◌∷◌, All, contains}
use security_tool.Machine.{
  queued, scope_verifying, recon, paused, complete, cancelled, testing, state_eq, state_index,
  ScanStateMachine, new_machine, can_transition, transition, resume, Call, to, back, run_calls,
  trail, is_terminal,
}
use security_tool.Machine.Laws.{testing_live, ◌⟶◌, can_transition_iff}
use security_tool.Machine.History.{IsResumable, run_calls-IsResumable}
use security_tool.Machine.Progress.{behind, position, trail-behind, can_complete}

abbrev script : List Call
script =
    to scope_verifying none ∷ to complete none ∷ to paused none ∷ back ∷ back ∷ to recon none ∷ []

script_runs : (run_calls script new_machine).current ≡ recon
unfolding run_calls transition can_transition resume
script_runs = refl

abbrev halted : ScanStateMachine
halted = record { current = paused; paused_from = some testing; fail_reason = none }

abbrev ended : ScanStateMachine
ended = record { current = cancelled; paused_from = some testing; fail_reason = none }

can_transition_iff_example :
    (can_transition new_machine scope_verifying ≡ true) ↔ (queued ⟶ scope_verifying)
can_transition_iff_example = can_transition_iff new_machine scope_verifying

run_calls-IsResumable_example :
    IsResumable (run_calls (to paused none ∷ back ∷ to paused none ∷ []) new_machine)
run_calls-IsResumable_example =
    run_calls-IsResumable (to paused none ∷ back ∷ to paused none ∷ []) new_machine tt

trail-behind_example :
    let n = run_calls script new_machine in
    All
      (λ s. contains (trail script new_machine (queued ∷ [])) s ≡ true)
      (behind (position n.current n.paused_from))
unfolding contains state_index
trail-behind_example = trail-behind script new_machine (queued ∷ []) (refl, tt)

can_complete_example : (cs : List Call) × ((run_calls cs halted).current ≡ complete)
unfolding is_terminal
can_complete_example = can_complete halted testing_live refl
