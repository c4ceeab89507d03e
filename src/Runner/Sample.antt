-- ===== src/Runner/Sample.antt =====
-- A run with two personas: the login of one succeeds, and the recipe of the other fills no secret.
use security_tool.Prelude.{
  ℕ, text_eq, true, false, ◌≡◌, refl, List, [], ◌∷◌, Option, none, some, Text, codes, starts_with,
  decimal, digits, text_beq, all, any, find, filter, contains, upper, or_text, lower, split_once,
  strip_left, strip_right, ends_with, ok,
}
use security_tool.Url.{Library, urlsplit, hostname, after_last}
use security_tool.Transcript.{text}
use security_tool.Engine.{
  HttpEngine, Attempt, answered, request, request_headers, transmit, send_loop, max_attempts, admit,
}
use security_tool.Crypto.{Bytes, MasterKeyProvider, wrap, unwrap, decrypt, new_provider}
use security_tool.Crypto.Sample.{cipher, drop_first, unseal, unseal_any}
use security_tool.Targets.{Target, create_target}
use security_tool.Auth.{session_state, cookies, collect_cookies}
use security_tool.Auth.Oracle.{
  status_code, status_differs, establish_session_oracle, compare_responses,
}
use security_tool.Scope.{
  new_guard, evaluate, evaluate_at, host_matches, decide_path, first_match, decide_exclude,
  decide_include, decide_method, decide_named, decide_listed, allowed_methods, covers, normal_host,
}
use security_tool.Scope.Pattern.{search_from, search_ignore_case, match_here, lits}
use security_tool.Scope.Destructive.{new_destructive_guard, check, check_text, haystack_of, matches}
use security_tool.Auth.Replay.{
  StepAction, fill_secret, click, url_contains, done, replay, replay_body, run_steps, run_step,
  step_call, perform, check_assertion, assertion_call, credential_for,
}
use security_tool.Personas.{Organization, Persona, RawStep, RawRecipe, password}
use security_tool.Personas.Login.{
  Outside, PersonaAuthResult, no_secret_step, establish_persona, build_login_recipe, build_steps,
  build_step, build_assertion, secret_ref, decrypt_secret, login_with, with_session, oracle_result,
}
use security_tool.Substrate.{build_scope_guard, build_http_engine}
use security_tool.Runner.Logins.{PersonaRow, Clients, log_in, org_key, root_url_of}

abbrev pub shop : Target
shop = record (create_target 1 7 (codes "b.t") (codes "Shop") true) {
  ownership_verified = true;
  authorization_accepted = true;
}

abbrev pub service : MasterKeyProvider
service = record { master_keys = codes "master" ∷ [] }

abbrev pub data_key : Bytes
data_key = codes "key"

abbrev pub acme : Organization
acme = record {
  id = 7;
  name = codes "Acme";
  slug = codes "acme";
  wrapped_data_key = wrap cipher service [] data_key;
}

abbrev pub step : StepAction → Text → Option Text → Option Text → RawStep
step a selector value ref = record {
  action = some a;
  selector = some selector;
  value = value;
  credential_ref = ref;
}

abbrev pub recipe : List RawStep → RawRecipe
recipe steps = record {
  start_url = some (codes "https://b.t/login");
  steps = some steps;
  success_assertion = some record { kind = some url_contains; value = some (codes "/home") };
  strategy = none;
}

abbrev pub persona : ℕ → Text → List RawStep → Persona
persona id label steps = record {
  id = id;
  target_id = 1;
  label = label;
  role_name = codes "member";
  trust_rank = 1;
  tenant_key = none;
  login_strategy = none;
  credential =
      some record { id = 5; kind = password; ciphertext = cipher.encrypt data_key [] (codes "pw") };
  login_recipe = some (recipe steps);
  expected_denied = [];
}

abbrev pub row : Persona → PersonaRow
row p = record {
  persona = p;
  is_available = false;
  unavailable_reason = none;
  session_state_ciphertext = none;
  session_oracle = none;
}

abbrev pub ann : PersonaRow
ann =
    row
      (persona 1 (codes "Ann") (step fill_secret (codes "#password") none (some (codes "pw")) ∷ []))

abbrev pub bob : PersonaRow
bob = row (persona 2 (codes "Bob") (step click (codes "#go") none none ∷ []))

abbrev pub simple_library : Library
simple_library = record {
  search = λ p s. some (starts_with s p);
  netloc_valid = λ s. true;
  alnum = λ c. false;
}

abbrev pub answers : ℕ → ℕ → Attempt
answers status k =
    answered record { status_code = status; headers = []; body = some (text (codes "hi")) }

abbrev pub outside : Outside
outside = record {
  library = simple_library;
  decode = λ b. [];
  page = λ k. done;
  stored = record { cookies = none };
  client = answers 200;
  anonymous_client = answers 302;
}

abbrev pub clients : Clients
clients = record {
  fernet = cipher;
  str = λ i. i ∷ [];
  dumps = λ s. codes "state";
  iv = λ i. [];
  outside = λ i. outside;
}

abbrev pub engine : HttpEngine
engine = build_http_engine (build_scope_guard shop [])

abbrev pub root_url : Text
root_url = root_url_of shop none

pub opens : org_key clients (codes "master") acme ≡ ok data_key
unfolding org_key wrap new_provider unwrap all drop_first unseal unseal_any text_beq
opens = refl

abbrev pub bob_result : PersonaAuthResult
bob_result = record {
  available = false;
  unavailable_reason = some no_secret_step;
  storage_state = none;
  session_oracle = none;
  oracle_detail = none;
}

pub bob_in : log_in clients engine data_key root_url bob ≡ ok bob_result
unfolding log_in establish_persona build_login_recipe build_steps build_step build_assertion
    secret_ref
bob_in = refl

abbrev pub ann_result : PersonaAuthResult
ann_result = record {
  available = true;
  unavailable_reason = none;
  storage_state = some record { cookies = none };
  session_oracle = some record {
    probe_method = codes "GET";
    probe_url = codes "https://b.t/";
    signal = status_code;
    authenticated_value = codes "200";
  };
  oracle_detail = some (status_differs 200 302);
}

pub ann_in : log_in clients engine data_key root_url ann ≡ ok ann_result
unfolding log_in establish_persona build_login_recipe build_steps build_step build_assertion
    secret_ref decrypt_secret login_with decrypt replay run_steps run_step step_call perform
    check_assertion assertion_call credential_for with_session oracle_result unseal drop_first
    text_beq establish_session_oracle session_state cookies collect_cookies request request_headers
    transmit send_loop max_attempts admit evaluate urlsplit evaluate_at any host_matches hostname
    decide_path first_match decide_exclude decide_include decide_method decide_named find
    decide_listed allowed_methods upper or_text filter lower split_once contains check check_text
    haystack_of matches search_from search_ignore_case match_here strip_left strip_right covers
    after_last normal_host new_destructive_guard lits compare_responses decimal digits
    build_scope_guard build_http_engine new_guard replay_body create_target ends_with
ann_in = refl
