-- ===== src/Runner/Logins.antt =====
-- apps/worker/sentinel_worker_app/scan_runner.py: `_run_auth_establishing` and `_run_crawling`, on
-- the rows of the personas that have a login recipe. JSON, the text of an identifier, the
-- randomness of the cipher and what the browser does are parameters. The columns that hold times,
-- and the detail in the note of a lost oracle, are left out.
use security_tool.Prelude.{
  ℕ, ◌+◌, Bool, false, not, List, [], ◌∷◌, ◌++◌, Option, none, some, Text, codes, ◌==◌, text_eq,
  if◌then◌else◌, Outcome, ok, ◌>>=◌,
}
use security_tool.Url.{Library, Fault}
use security_tool.Scope.{ScopeRule}
use security_tool.Scope.Destructive.{new_destructive_guard}
use security_tool.Engine.{HttpEngine}
use security_tool.Crawler.{PersonaCrawler, SurfaceMap, Crawl, Visit, crawl}
use security_tool.Crypto.{Bytes, Fernet, CryptoFault, encrypt, unwrap, new_provider}
use security_tool.Auth.{StorageState}
use security_tool.Auth.Oracle.{SessionOracle}
use security_tool.Targets.{Target}
use security_tool.Substrate.{build_scope_guard, build_http_engine}
use security_tool.Personas.{Persona, Organization}
use security_tool.Personas.Login.{
  Outside, PersonaAuthResult, UnavailableReason, AdapterFault, crypto_fault, as_adapter_fault,
  establish_persona, no_state,
}
use security_tool.Runner.{DegradedReason, no_oracle}

-- A persona and the columns that a login writes.
pub record PersonaRow : Type 0 where
  pub persona : Persona
  pub is_available : Bool
  pub unavailable_reason : Option UnavailableReason
  pub session_state_ciphertext : Option Bytes
  pub session_oracle : Option SessionOracle

-- What the loop writes: the rows behind it, the statistics, the sessions, the scan's notes.
pub record Logins : Type 0 where
  pub rows : List PersonaRow
  pub personas_available : ℕ
  pub in_memory_sessions : List (Text × StorageState)
  pub degraded_reasons : List DegradedReason

pub record Clients : Type 0 where
  pub fernet : Fernet
  pub str : ℕ → Text
  pub dumps : Option StorageState → Text
  pub iv : Text → Bytes
  pub outside : Text → Outside

abbrev pub no_logins : Logins
no_logins = record {
  rows = [];
  personas_available = 0;
  in_memory_sessions = [];
  degraded_reasons = [];
}

-- sessions[k] = v
unfoldable pub set_session :
    Text → StorageState → List (Text × StorageState) → List (Text × StorageState)
set_session k v [] = (k, v) ∷ []
set_session k v ((j, old) ∷ sessions) =
    let rest = set_session k v sessions in if j == k then (k, v) ∷ sessions else (j, old) ∷ rest

-- sessions.session_for(k)
unfoldable pub session_for : Text → List (Text × StorageState) → Option StorageState
session_for k [] = none
session_for k ((j, v) ∷ sessions) = if j == k then some v else session_for k sessions

abbrev pub oracle_note : Text → Option SessionOracle → List DegradedReason
oracle_note label none = no_oracle label ∷ []
oracle_note label (some oracle) = []

abbrev pub logged_in : Text → PersonaRow → PersonaAuthResult → Bytes → Logins → Logins
logged_in id row r ciphertext s = record {
  rows =
      s.rows
      ++ record {
        persona = row.persona;
        is_available = r.available;
        unavailable_reason = r.unavailable_reason;
        session_state_ciphertext = some ciphertext;
        session_oracle = r.session_oracle;
      }
        ∷ [];
  personas_available = s.personas_available + 1;
  in_memory_sessions = set_session id (no_state r.storage_state) s.in_memory_sessions;
  degraded_reasons = s.degraded_reasons ++ oracle_note row.persona.label r.session_oracle;
}

abbrev pub left_out : PersonaRow → PersonaAuthResult → Logins → Logins
left_out row r s = record s {
  rows =
      s.rows
      ++ record row { is_available = r.available; unavailable_reason = r.unavailable_reason } ∷ [];
}

-- or_url or f"https://{target.root_domain}/"
abbrev pub root_url_of : Target → Option Text → Text
root_url_of target (some (x ∷ url)) = x ∷ url
root_url_of target _ = codes "https://" ++ (target.root_domain ++ codes "/")

module _ (c : Clients) where
  unfoldable pub record_result :
      Bytes → PersonaRow → Logins → PersonaAuthResult → Outcome AdapterFault Logins
  unfolding encrypt
  record_result org_data_key row s r =
      let id = c.str row.persona.id in
      let f = c.fernet in
      if not r.available
      then ok (left_out row r s)
      else as_adapter_fault crypto_fault
          (encrypt f org_data_key (c.iv id) (f.encode (c.dumps r.storage_state)))
        >>= λ ciphertext. ok (logged_in id row r ciphertext s)

  unfoldable pub log_in :
      HttpEngine → Bytes → Text → PersonaRow → Outcome AdapterFault PersonaAuthResult
  unfolding establish_persona
  log_in engine org_data_key probe_url row =
      let id = c.str row.persona.id in
      establish_persona c.fernet (c.outside id) engine org_data_key id row.persona probe_url

  unfoldable pub login_loop :
      HttpEngine → Bytes → Text → List PersonaRow → Logins → Outcome AdapterFault Logins
  unfolding log_in record_result
  login_loop engine org_data_key probe_url [] s = ok s
  login_loop engine org_data_key probe_url (row ∷ rows) s =
      log_in engine org_data_key probe_url row
      >>= record_result org_data_key row s
      >>= login_loop engine org_data_key probe_url rows

  -- The key of the organization.
  unfoldable pub org_key : Text → Organization → Outcome CryptoFault Bytes
  unfolding new_provider unwrap
  org_key kms_master_key org =
      new_provider c.fernet (c.fernet.encode kms_master_key ∷ []) >>= λ provider.
      unwrap c.fernet provider org.wrapped_data_key

  -- `_run_auth_establishing`
  unfoldable pub run_auth_establishing :
      Text
      → Organization
      → Target
      → List ScopeRule
      → Option Text
      → List PersonaRow
      → Outcome AdapterFault Logins
  unfolding org_key build_scope_guard build_http_engine login_loop
  run_auth_establishing kms_master_key org target scope_rules oracle_probe_url [] = ok no_logins
  run_auth_establishing kms_master_key org target scope_rules oracle_probe_url (row ∷ rows) =
      as_adapter_fault crypto_fault (org_key kms_master_key org) >>= λ org_data_key.
      login_loop (build_http_engine (build_scope_guard target scope_rules)) org_data_key
        (root_url_of target oracle_probe_url) (row ∷ rows) no_logins

-- A browser, by the persona and its session.
abbrev pub Browser : Type 0
Browser = Text → Option StorageState → Crawl → Text → Visit

-- What is left out has the defaults of `PersonaCrawler.__init__`.
unfoldable pub new_crawler : Target → List ScopeRule → PersonaCrawler
unfolding build_scope_guard new_destructive_guard
new_crawler target scope_rules = record {
  scope_guard = build_scope_guard target scope_rules;
  destructive_guard = new_destructive_guard false [];
  max_pages = 30;
}

module _ (lib : Library) (browser : Browser) (str : ℕ → Text) where
  unfoldable pub crawl_as :
      PersonaCrawler → Text → Text → Option StorageState → Outcome Fault SurfaceMap
  unfolding crawl
  crawl_as crawler root_url persona_id storage_state =
      crawl lib crawler (browser persona_id storage_state) root_url persona_id >>= λ s. ok s.surface

  abbrev pub crawl_persona :
      PersonaCrawler → Text → Text → Option StorageState → Outcome Fault (List SurfaceMap)
  crawl_persona crawler root_url id none = ok []
  crawl_persona crawler root_url id (some state) =
      crawl_as crawler root_url id (some state) >>= λ surface. ok (surface ∷ [])

  unfoldable pub crawl_personas :
      PersonaCrawler
      → Text
      → List (Text × StorageState)
      → List PersonaRow
      → Outcome Fault (List SurfaceMap)
  unfolding crawl_as session_for
  crawl_personas crawler root_url sessions [] = ok []
  crawl_personas crawler root_url sessions (row ∷ rows) =
      let id = str row.persona.id in
      crawl_persona crawler root_url id (session_for id sessions) >>= λ first.
      crawl_personas crawler root_url sessions rows >>= λ rest. ok (first ++ rest)

  -- `_run_crawling`
  unfoldable pub run_crawling :
      Target
      → List ScopeRule
      → List PersonaRow
      → List (Text × StorageState)
      → Option Text
      → Outcome Fault (List SurfaceMap)
  unfolding new_crawler crawl_as crawl_personas
  run_crawling target scope_rules configured_personas sessions root_url =
      let crawler = new_crawler target scope_rules in
      let url = root_url_of target root_url in
      crawl_as crawler url (codes "anonymous") none >>= λ first.
      crawl_personas crawler url sessions configured_personas >>= λ rest. ok (first ∷ rest)
