-- ===== src/Runner.antt =====
-- apps/worker/sentinel_worker_app/scan_runner.py: a run of one scan. What reconnaissance, the
-- logins, the crawls and the merge give are parameters; the statistics of the phases, times and
-- log lines are left out. A run returns the session with the scan and all it has committed.
pub mod Moves
pub mod Phases
pub mod Ends
pub mod Surfaces
pub mod Written
pub mod Logins
pub mod Kept
pub mod Sessions
pub mod Briefs
pub mod Refined
pub mod Details
pub mod Crawls
mod Tests
mod Sample
mod LoginTests
use security_tool.Prelude.{
  ℕ, Bool, true, false, not, ◌&&◌, ◌||◌, List, [], ◌∷◌, ◌++◌, map, Option, none, some, Text, codes,
  filter, length, contains, ◌==◌, text_eq, if◌then◌else◌, Outcome, ok, raise, ◌>>=◌,
}
use security_tool.Machine.{
  ScanState, ScanPhaseName, PhaseStatus, phase_name_eq, ScanStateMachine, MachineError, transition,
}

pub data DegradedReason : Type 0 where
  recon_note : Text → DegradedReason
  no_master_key no_personas not_implemented : DegradedReason
  no_oracle : Text → DegradedReason

pub record ScanRow : Type 0 where
  pub state : ScanState
  pub paused_from : Option ScanState
  pub phases : List (ScanPhaseName × PhaseStatus)
  pub is_degraded : Bool
  pub degraded_reasons : List DegradedReason
  pub is_finished : Bool

pub record Persona : Type 0 where
  pub id : Text
  pub label : Text
  pub has_login_recipe : Bool

-- What `establish_persona` gives: whether the login worked, and whether an oracle was found.
pub record Established : Type 0 where
  pub available : Bool
  pub has_oracle : Bool

pub record ReconResult : Type 0 where
  pub degraded : Bool
  pub notes : List Text

-- What a run meets. An exception is a text. `flush` is what the database answers at a commit of the
-- run, by the number of the commits before it: a flush that it refuses leaves the run no later.
pub record Facts : Type 0 where
  pub is_scannable : Bool
  pub recon_result : Outcome Text ReconResult
  pub has_master_key : Bool
  pub personas : List Persona
  pub login : Outcome Text (Unit {0})
  pub establish : Text → Established
  pub crawl : List Text → Outcome Text (Unit {0})
  pub merge : Outcome Text (Unit {0})
  pub flush : ℕ → Outcome Text (Unit {0})

pub record Session : Type 0 where
  pub machine : ScanStateMachine
  pub scan : ScanRow
  pub committed : List ScanRow

-- A run stops early: it returns, or an exception leaves it.
pub data Stop : Type 0 where
  returned : Session → Stop
  invalid : MachineError → Session → Stop
  raised : Text → Session → Stop

abbrev pub Run : Type 0
Run = Outcome Stop Session

abbrev or_raised {ℓ} : {A : Type ℓ} → Outcome Text A → Session → (A → Run) → Run
or_raised (ok a) s next = next a
or_raised (raise e) s next = raise (raised e s)

-- `await session.commit()`
abbrev pub commit : Facts → Session → Run
commit f s =
    or_raised (f.flush (length s.committed)) s
      (λ x. ok (record s { committed = s.committed ++ s.scan ∷ [] }))

-- A commit, and `return`.
abbrev pub commit_and_return : Facts → Session → Run
commit_and_return f s = commit f s >>= λ t. raise (returned t)

-- `_get_or_create_phase`
unfoldable pub create_phase :
    ScanPhaseName → List (ScanPhaseName × PhaseStatus) → List (ScanPhaseName × PhaseStatus)
create_phase n [] = (n, PhaseStatus.pending) ∷ []
create_phase n ((m, status) ∷ phases) =
    if m == n then (m, status) ∷ phases else (m, status) ∷ create_phase n phases

-- The status of the phase of a name.
unfoldable pub set_phase :
    ScanPhaseName
    → PhaseStatus
    → List (ScanPhaseName × PhaseStatus)
    → List (ScanPhaseName × PhaseStatus)
set_phase n status [] = (n, status) ∷ []
set_phase n status ((m, old) ∷ phases) =
    if m == n then (n, status) ∷ phases else (m, old) ∷ set_phase n status phases

abbrev pub phase_to : ScanPhaseName → PhaseStatus → Session → Session
phase_to n status s = record s {
  scan = record s.scan { phases = set_phase n status s.scan.phases };
}

abbrev pub with_phase : ScanPhaseName → Session → Session
with_phase n s = record s { scan = record s.scan { phases = create_phase n s.scan.phases } }

abbrev pub degrade : List DegradedReason → Session → Session
degrade rs s = record s {
  scan = record s.scan { is_degraded = true; degraded_reasons = s.scan.degraded_reasons ++ rs };
}

abbrev pub finish : Session → Session
finish s = record s { scan = record s.scan { is_finished = true } }

abbrev pub moved : Outcome MachineError ScanStateMachine → Session → Run
moved (ok m) s = ok (record s { machine = m; scan = record s.scan { state = m.current } })
moved (raise e) s = raise (invalid e s)

-- machine.transition(target); scan.state = machine.current
abbrev pub advance : ScanState → Session → Run
advance target s = moved (transition target none s.machine) s

unfoldable pub verify_scope : Facts → Session → Run
verify_scope f s =
    advance ScanState.scope_verifying (with_phase ScanPhaseName.scope_verifying s) >>= λ t.
    let t' = phase_to ScanPhaseName.scope_verifying PhaseStatus.running t in
    if not f.is_scannable
    then (advance ScanState.blocked_unverified t' >>= λ u.
        commit_and_return f (finish (phase_to ScanPhaseName.scope_verifying PhaseStatus.failed u)))
    else commit f (phase_to ScanPhaseName.scope_verifying PhaseStatus.completed t')

abbrev pub after_recon : Facts → Session → ReconResult → Run
after_recon f s r =
    let t = phase_to ScanPhaseName.recon PhaseStatus.completed s in
    commit f (if r.degraded then degrade (map recon_note r.notes) t else t)

unfoldable pub run_recon_phase : Facts → Session → Run
run_recon_phase f s = advance ScanState.recon (with_phase ScanPhaseName.recon s) >>= λ t.
    commit f (phase_to ScanPhaseName.recon PhaseStatus.running t) >>= λ u.
    or_raised f.recon_result u (after_recon f u)

unfoldable pub configured : Facts → List Persona
unfolding filter
configured f = filter (λ p. p.has_login_recipe) f.personas

-- `_run_auth_establishing`: the personas that became available, and the notes on lost oracles.
unfoldable pub available_personas : Facts → List Persona
unfolding filter
available_personas f = filter (λ p. (f.establish p.id).available) (configured f)

unfoldable pub oracle_notes : Facts → List DegradedReason
unfolding filter
oracle_notes f =
    map (λ p. no_oracle p.label)
      (filter (λ p. not (f.establish p.id).has_oracle) (available_personas f))

abbrev pub is_empty {ℓ} : {A : Type ℓ} → List A → Bool
is_empty [] = true
is_empty (x ∷ xs) = false

abbrev pub noted : List DegradedReason → Session → Session
noted rs s = record s {
  scan = record s.scan {
    is_degraded = s.scan.is_degraded || not (is_empty rs);
    degraded_reasons = s.scan.degraded_reasons ++ rs;
  };
}

-- Whether any persona is to be logged in.
abbrev pub logs_in : Facts → Bool
logs_in f =
    not (not f.has_master_key && not (is_empty (configured f))) && not (is_empty (configured f))

abbrev pub after_logins : Facts → Session → Run
after_logins f s =
    let n = ScanPhaseName.auth_establishing in
    if is_empty (available_personas f)
    then (advance ScanState.failed_auth (noted (oracle_notes f) s) >>= λ t.
        commit_and_return f (finish (phase_to n PhaseStatus.failed t)))
    else ok (phase_to n PhaseStatus.completed (noted (oracle_notes f) s))

abbrev pub auth_outcome : Facts → Session → Run
auth_outcome f s =
    let n = ScanPhaseName.auth_establishing in
    if not f.has_master_key && not (is_empty (configured f))
    then ok (phase_to n PhaseStatus.skipped (degrade (no_master_key ∷ []) s))
    else if is_empty (configured f)
    then ok (phase_to n PhaseStatus.completed (degrade (no_personas ∷ []) s))
    else or_raised f.login s (λ x. after_logins f s)

unfoldable pub establish_auth : Facts → Session → Run
establish_auth f s =
    let n = ScanPhaseName.auth_establishing in
    advance ScanState.auth_establishing (with_phase n s) >>= λ t.
    commit f (phase_to n PhaseStatus.running t) >>= λ t'.
    auth_outcome f t' >>= λ u. advance ScanState.crawling u >>= λ v. commit f v

-- `_run_crawling` crawls anonymously, then as each persona that has a session.
unfoldable pub crawled_as : Facts → List Text
crawled_as f =
    codes "anonymous" ∷ (if logs_in f then map (λ p. p.id) (available_personas f) else [])

unfoldable pub run_crawl_phase : Facts → Session → Run
run_crawl_phase f s =
    let n = ScanPhaseName.crawling in
    commit f (phase_to n PhaseStatus.running (with_phase n s)) >>= λ t.
    or_raised (f.crawl (crawled_as f)) t (λ x.
      advance ScanState.surface_mapping (phase_to n PhaseStatus.completed t) >>= λ u. commit f u)

abbrev note_pause : Session → Session
note_pause s = record s { scan = record s.scan { paused_from = s.machine.paused_from } }

unfoldable pub map_surfaces : Facts → Session → Run
map_surfaces f s =
    let n = ScanPhaseName.surface_mapping in
    commit f (phase_to n PhaseStatus.running (with_phase n s)) >>= λ t. or_raised f.merge t (λ x.
      advance ScanState.paused (phase_to n PhaseStatus.completed t) >>= λ u.
      commit f (degrade (not_implemented ∷ []) (note_pause u)))

abbrev pub session_of : ScanRow → Session
session_of scan = record {
  machine = record { current = scan.state; paused_from = scan.paused_from; fail_reason = none };
  scan = scan;
  committed = [];
}

-- `run_scan`, for a scan and a target that exist.
unfoldable pub run_scan : Facts → ScanRow → Run
run_scan f scan =
    verify_scope f (session_of scan)
    >>= run_recon_phase f
    >>= establish_auth f
    >>= run_crawl_phase f
    >>= map_surfaces f

-- The session at the end of a run, however it ends.
abbrev pub session_at_end : Run → Session
session_at_end (ok s) = s
session_at_end (raise (returned s)) = s
session_at_end (raise (invalid e s)) = s
session_at_end (raise (raised e s)) = s
