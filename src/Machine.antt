-- ===== src/Machine.antt =====
-- packages/core/src/sentinel_core/state_machine: states.py and machine.py. A method that mutates
-- the machine returns the new one; an exception is a value, and leaves the machine as it was,
-- since the code raises before it writes.
pub mod Laws
pub mod History
pub mod Progress
mod Tests
use security_tool.Prelude.{
  Bool, true, false, not, ◌&&◌, ◌≡◌, List, [], ◌∷◌, Option, none, some, Text, Equality, ◌==◌,
  nat_beq, get_elem?, enum_iff, refl, ◌↔◌, ℕ, contains, filter, if◌then◌else◌, Outcome, ok, raise,
}

pub data ScanState : Type 0 where
  queued scope_verifying blocked_unverified recon auth_establishing failed_auth : ScanState
  crawling surface_mapping passive_checks testing verifying triaging reporting : ScanState
  complete paused cancelled failed : ScanState

-- The order of the class `ScanState`.
abbrev pub all_states : List ScanState
all_states =
    queued ∷ scope_verifying ∷ blocked_unverified ∷ recon ∷ auth_establishing ∷ failed_auth
    ∷ crawling ∷ surface_mapping ∷ passive_checks ∷ testing ∷ verifying ∷ triaging ∷ reporting
    ∷ complete ∷ paused ∷ cancelled ∷ failed ∷ []

unfoldable pub state_index : ScanState → ℕ
state_index queued = 0
state_index scope_verifying = 1
state_index blocked_unverified = 2
state_index recon = 3
state_index auth_establishing = 4
state_index failed_auth = 5
state_index crawling = 6
state_index surface_mapping = 7
state_index passive_checks = 8
state_index testing = 9
state_index verifying = 10
state_index triaging = 11
state_index reporting = 12
state_index complete = 13
state_index paused = 14
state_index cancelled = 15
state_index failed = 16

state_index_lem : (s : ScanState) → get_elem? all_states (state_index s) ≡ some s
unfolding state_index
state_index_lem queued = refl
state_index_lem _ = refl

pub state_beq_iff : (s t : ScanState) → (nat_beq (state_index s) (state_index t) ≡ true) ↔ (s ≡ t)
state_beq_iff = enum_iff state_index all_states state_index_lem

instance abbrev pub state_eq : Equality ScanState
state_eq = record {
  same = λ s t. nat_beq (state_index s) (state_index t);
  same_iff = state_beq_iff;
}

abbrev pub terminal_states : List ScanState
terminal_states = complete ∷ cancelled ∷ failed ∷ blocked_unverified ∷ failed_auth ∷ []

unfoldable pub interruptible_states : List ScanState
unfolding contains state_index filter
interruptible_states =
    filter (λ s. not (contains terminal_states s) && not (s == paused)) all_states

pub data ScanPhaseName : Type 0 where
  scope_verifying recon auth_establishing crawling surface_mapping passive_checks : ScanPhaseName
  active_injection access_control session_checks business_logic : ScanPhaseName
  verifying triaging reporting : ScanPhaseName

unfoldable pub phase_name_index : ScanPhaseName → ℕ
phase_name_index scope_verifying = 0
phase_name_index recon = 1
phase_name_index auth_establishing = 2
phase_name_index crawling = 3
phase_name_index surface_mapping = 4
phase_name_index passive_checks = 5
phase_name_index active_injection = 6
phase_name_index access_control = 7
phase_name_index session_checks = 8
phase_name_index business_logic = 9
phase_name_index verifying = 10
phase_name_index triaging = 11
phase_name_index reporting = 12

abbrev pub all_phase_names : List ScanPhaseName
all_phase_names =
    scope_verifying ∷ recon ∷ auth_establishing ∷ crawling ∷ surface_mapping ∷ passive_checks
    ∷ active_injection ∷ access_control ∷ session_checks ∷ business_logic ∷ verifying ∷ triaging
    ∷ reporting ∷ []

phase_name_index_lem : (s : ScanPhaseName) → get_elem? all_phase_names (phase_name_index s) ≡ some s
unfolding phase_name_index
phase_name_index_lem scope_verifying = refl
phase_name_index_lem _ = refl

pub phase_name_beq_iff :
    (s t : ScanPhaseName) → (nat_beq (phase_name_index s) (phase_name_index t) ≡ true) ↔ (s ≡ t)
phase_name_beq_iff = enum_iff phase_name_index all_phase_names phase_name_index_lem

instance abbrev pub phase_name_eq : Equality ScanPhaseName
phase_name_eq = record {
  same = λ s t. nat_beq (phase_name_index s) (phase_name_index t);
  same_iff = phase_name_beq_iff;
}

pub data PhaseStatus : Type 0 where
  pending running completed failed skipped : PhaseStatus

-- `_LINEAR_TRANSITIONS.get(state, set())`
unfoldable pub linear_transitions : ScanState → List ScanState
linear_transitions queued = scope_verifying ∷ []
linear_transitions scope_verifying = recon ∷ blocked_unverified ∷ []
linear_transitions recon = auth_establishing ∷ []
linear_transitions auth_establishing = crawling ∷ failed_auth ∷ []
linear_transitions crawling = surface_mapping ∷ []
linear_transitions surface_mapping = passive_checks ∷ []
linear_transitions passive_checks = testing ∷ []
linear_transitions testing = verifying ∷ []
linear_transitions verifying = triaging ∷ []
linear_transitions triaging = reporting ∷ []
linear_transitions reporting = complete ∷ []
linear_transitions _ = []

pub record ScanStateMachine : Type 0 where
  pub current : ScanState
  pub paused_from : Option ScanState
  pub fail_reason : Option Text

-- `InvalidTransition(current, target)`, and the two uses of `InvalidResume`.
pub data MachineError : Type 0 where
  invalid_transition : ScanState → ScanState → MachineError
  resume_not_paused : ScanState → MachineError
  resume_no_origin : MachineError

abbrev pub new_machine : ScanStateMachine
new_machine = record { current = queued; paused_from = none; fail_reason = none }

unfoldable pub is_terminal : ScanStateMachine → Bool
unfolding contains state_index
is_terminal m = contains terminal_states m.current

unfoldable pub can_transition : ScanStateMachine → ScanState → Bool
unfolding is_terminal linear_transitions contains state_index
can_transition m target =
    if is_terminal m
    then false
    else if target == paused
    then not (m.current == paused)
    else if contains (cancelled ∷ failed ∷ []) target
    then true
    else contains (linear_transitions m.current) target

abbrev note_pause : ScanState → ScanStateMachine → ScanStateMachine
note_pause target m = if target == paused then record m { paused_from = some m.current } else m

abbrev note_failure : ScanState → Option Text → ScanStateMachine → ScanStateMachine
note_failure target reason m = if target == failed then record m { fail_reason = reason } else m

unfoldable pub transition :
    ScanState → Option Text → ScanStateMachine → Outcome MachineError ScanStateMachine
transition target reason m =
    if can_transition m target
    then ok (record (note_failure target reason (note_pause target m)) { current = target })
    else raise (invalid_transition m.current target)

resume_into : Option ScanState → ScanStateMachine → Outcome MachineError ScanStateMachine
resume_into none m = raise resume_no_origin
resume_into (some s) m = ok (record m { current = s; paused_from = none })

unfoldable pub resume : ScanStateMachine → Outcome MachineError ScanStateMachine
unfolding resume_into state_index
resume m =
    if m.current == paused then resume_into m.paused_from m else raise (resume_not_paused m.current)

-- The calls that a client makes, one after another; a call that raises changes nothing.
pub data Call : Type 0 where
  to : ScanState → Option Text → Call
  back : Call

unfoldable pub perform : Call → ScanStateMachine → Outcome MachineError ScanStateMachine
unfolding transition resume
perform (to target reason) m = transition target reason m
perform back m = resume m

-- `except (InvalidTransition, InvalidResume): pass`
unfoldable pub after : Outcome MachineError ScanStateMachine → ScanStateMachine → ScanStateMachine
after (ok n) m = n
after (raise e) m = m

unfoldable pub run_calls : List Call → ScanStateMachine → ScanStateMachine
unfolding after perform
run_calls [] m = m
run_calls (c ∷ cs) m = run_calls cs (after (perform c m) m)

-- The states that a scan has been in, the newest first.
unfoldable pub trail : List Call → ScanStateMachine → List ScanState → List ScanState
unfolding after perform
trail [] m seen = seen
trail (c ∷ cs) m seen = let n = after (perform c m) m in trail cs n (n.current ∷ seen)
