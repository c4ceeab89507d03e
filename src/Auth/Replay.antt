-- ===== src/Auth/Replay.antt =====
-- packages/auth/src/sentinel_auth: models.py and replay.py. What the browser does at each call is
-- a parameter; timeouts and durations are not modelled.
use security_tool.Prelude.{
  ℕ, Bool, true, false, List, [], ◌∷◌, ◌++◌, Option, none, some, Text, codes, ◌==◌, text_eq, length,
  if◌then◌else◌, Outcome, ok, raise, ◌>>=◌,
}
use security_tool.Auth.{StorageState}

-- `StepAction`, with what the recipe's JSON may hold besides.
pub data StepAction : Type 0 where
  goto fill fill_secret click wait_for_selector wait_for_url : StepAction
  other_action : Text → StepAction

pub record LoginStep : Type 0 where
  pub action : StepAction
  pub selector : Option Text
  pub value : Option Text
  pub credential_ref : Option Text

pub data AssertionKind : Type 0 where
  url_contains selector_visible selector_hidden : AssertionKind
  other_kind : Text → AssertionKind

pub record SuccessAssertion : Type 0 where
  pub kind : AssertionKind
  pub value : Text

pub record LoginRecipe : Type 0 where
  pub start_url : Text
  pub steps : List LoginStep
  pub success_assertion : SuccessAssertion
  pub strategy : Text

pub record Credential : Type 0 where
  pub ref : Text
  pub secret : Text

-- The credentials by their reference.
abbrev pub Credentials : Type 0
Credentials = List (Text × Credential)

-- A call of the page. `waits_for` has the state where the call names one.
pub data PageCall : Type 0 where
  goes_to : Text → PageCall
  fills : Text → Text → PageCall
  clicks : Text → PageCall
  waits_for : Text → Option Text → PageCall
  waits_for_url : Text → PageCall
  closes : PageCall

-- What the browser does at a call: it returns, its time is over, or it raises something else.
pub data Reply : Type 0 where
  done : Reply
  out_of_time : Text → Reply
  broken : Text → Reply

pub data ReplayFault : Type 0 where
  playwright_timeout : Text → ReplayFault
  key_error : Text → ReplayFault
  assertion_error value_error : ReplayFault
  browser_error : Text → ReplayFault

-- The calls made so far, and what a block raises along with them.
abbrev pub Replaying : Type 0
Replaying = Outcome (ReplayFault × List PageCall) (List PageCall)

abbrev pub replied : Reply → List PageCall → Replaying
replied done calls = ok calls
replied (out_of_time m) calls = raise (playwright_timeout m, calls)
replied (broken m) calls = raise (browser_error m, calls)

-- The page's answer to a call depends on how many calls there were.
unfoldable pub perform : (ℕ → Reply) → PageCall → List PageCall → Replaying
perform page c calls = replied (page (length calls)) (calls ++ c ∷ [])

unfoldable pub credential_for : Text → Credentials → Option Credential
credential_for ref [] = none
credential_for ref ((k, c) ∷ cs) = if k == ref then some c else credential_for ref cs

abbrev secret_call : Text → Text → Option Credential → Outcome ReplayFault PageCall
secret_call selector ref none = raise (key_error ref)
secret_call selector ref (some c) = ok (fills selector c.secret)

-- What a step asks of the page, or what it raises before that.
unfoldable pub step_call : Credentials → LoginStep → Outcome ReplayFault PageCall
unfolding credential_for
step_call credentials step = by_fields step.action step.selector step.value step.credential_ref
  where
    by_fields : StepAction → Option Text → Option Text → Option Text → Outcome ReplayFault PageCall
    by_fields goto selector (some value) ref = ok (goes_to value)
    by_fields fill (some selector) (some value) ref = ok (fills selector value)
    by_fields fill_secret (some selector) value (some ref) =
        secret_call selector ref (credential_for ref credentials)
    by_fields click (some selector) value ref = ok (clicks selector)
    by_fields wait_for_selector (some selector) value ref = ok (waits_for selector none)
    by_fields wait_for_url selector (some value) ref = ok (waits_for_url value)
    by_fields (other_action a) selector value ref = raise value_error
    by_fields _ selector value ref = raise assertion_error

abbrev pub performed : (ℕ → Reply) → Outcome ReplayFault PageCall → List PageCall → Replaying
performed page (raise e) calls = raise (e, calls)
performed page (ok c) calls = perform page c calls

-- `_run_step`
unfoldable pub run_step : (ℕ → Reply) → Credentials → LoginStep → List PageCall → Replaying
unfolding step_call
run_step page credentials step calls = performed page (step_call credentials step) calls

unfoldable pub run_steps : (ℕ → Reply) → Credentials → List LoginStep → List PageCall → Replaying
unfolding run_step
run_steps page credentials [] calls = ok calls
run_steps page credentials (step ∷ steps) calls =
    run_step page credentials step calls >>= run_steps page credentials steps

unfoldable pub assertion_call : SuccessAssertion → Option PageCall
assertion_call a = by_kind a.kind
  where
    by_kind : AssertionKind → Option PageCall
    by_kind url_contains = some (waits_for_url (codes "**" ++ a.value ++ codes "**"))
    by_kind selector_visible = some (waits_for a.value (some (codes "visible")))
    by_kind selector_hidden = some (waits_for a.value (some (codes "hidden")))
    by_kind (other_kind k) = none

abbrev pub Checked : Type 0
Checked = Outcome (ReplayFault × List PageCall) (Bool × List PageCall)

abbrev pub asserted : Replaying → Checked
asserted (ok calls) = ok (true, calls)
asserted (raise (playwright_timeout m, calls)) = ok (false, calls)
asserted (raise e) = raise e

abbrev pub checked_call : (ℕ → Reply) → Option PageCall → List PageCall → Checked
checked_call page none calls = ok (false, calls)
checked_call page (some c) calls = asserted (perform page c calls)

-- `_check_assertion`
unfoldable pub check_assertion : (ℕ → Reply) → SuccessAssertion → List PageCall → Checked
unfolding assertion_call perform
check_assertion page a calls = checked_call page (assertion_call a) calls

pub data ReplayError : Type 0 where
  assertion_failed : AssertionKind → Text → ReplayError
  timeout : Text → ReplayError
  missing_credential : Text → ReplayError

pub record LoginReplayResult : Type 0 where
  pub success : Bool
  pub storage_state : Option StorageState
  pub error : Option ReplayError

abbrev pub failed : ReplayError → LoginReplayResult
failed e = record { success = false; storage_state = none; error = some e }

-- The `except` clauses, and `finally`: the result or what is raised, and all calls.
abbrev pub concluded :
    StorageState
    → SuccessAssertion
    → Checked
    → Outcome ReplayFault LoginReplayResult × List PageCall
concluded stored a (ok (true, calls)) =
    (ok record { success = true; storage_state = some stored; error = none }, calls ++ closes ∷ [])
concluded stored a (ok (false, calls)) =
    (ok (failed (assertion_failed a.kind a.value)), calls ++ closes ∷ [])
concluded stored a (raise (playwright_timeout m, calls)) =
    (ok (failed (timeout m)), calls ++ closes ∷ [])
concluded stored a (raise (key_error ref, calls)) =
    (ok (failed (missing_credential ref)), calls ++ closes ∷ [])
concluded stored a (raise (e, calls)) = (raise e, calls ++ closes ∷ [])

-- The body of the `try`.
unfoldable pub replay_body : (ℕ → Reply) → LoginRecipe → Credentials → Checked
unfolding perform run_steps check_assertion
replay_body page recipe credentials =
    perform page (goes_to recipe.start_url) []
    >>= run_steps page credentials recipe.steps
    >>= check_assertion page recipe.success_assertion

-- `LoginReplayer.replay`: `stored` is the storage state of the browser's context at the end.
unfoldable pub replay :
    (ℕ → Reply)
    → StorageState
    → LoginRecipe
    → Credentials
    → Outcome ReplayFault LoginReplayResult × List PageCall
unfolding replay_body
replay page stored recipe credentials =
    concluded stored recipe.success_assertion (replay_body page recipe credentials)
