-- ===== src/Personas/Login.antt =====
-- apps/worker/sentinel_worker_app/auth_adapter.py: from a persona's row to its session.
use security_tool.Prelude.{
  ℕ, Bool, true, false, not, List, [], ◌∷◌, Option, none, some, Text, codes, if◌then◌else◌, Outcome,
  ok, raise, ◌>>=◌,
}
use security_tool.Url.{Library, Fault, urlsplit, hostname, SplitResult}
use security_tool.Engine.{HttpEngine, Attempt, EngineError}
use security_tool.Crypto.{Bytes, Fernet, CryptoFault, decode_error, decrypt, or_fault}
use security_tool.Auth.{StorageState, PersonaSession, session_state}
use security_tool.Auth.Oracle.{
  SessionOracle, OracleDetail, OracleEstablishmentResult, establish_session_oracle,
}
use security_tool.Auth.Replay.{
  StepAction, fill_secret, LoginStep, LoginRecipe, SuccessAssertion, Credentials, LoginReplayResult,
  ReplayError, ReplayFault, Reply, replay,
}
use security_tool.Personas.{Persona, StoredCredential, RawStep, RawAssertion, RawRecipe}

-- What leaves `establish_persona` as an exception.
pub data AdapterFault : Type 0 where
  missing_key : Text → AdapterFault
  crypto_fault : CryptoFault → AdapterFault
  replay_fault : ReplayFault → AdapterFault
  url_fault : Fault → AdapterFault
  engine_fault : EngineError → AdapterFault

pub data UnavailableReason : Type 0 where
  no_recipe no_credential no_secret_step : UnavailableReason
  login_failed : Option ReplayError → UnavailableReason

pub record PersonaAuthResult : Type 0 where
  pub available : Bool
  pub unavailable_reason : Option UnavailableReason
  pub storage_state : Option StorageState
  pub session_oracle : Option SessionOracle
  pub oracle_detail : Option OracleDetail

-- raw[key]
abbrev key_of {ℓ} : {A : Type ℓ} → Text → Option A → Outcome AdapterFault A
key_of k none = raise (missing_key k)
key_of k (some x) = ok x

unfoldable pub build_step : RawStep → Outcome AdapterFault LoginStep
build_step s = key_of (codes "action") s.action >>= λ action. ok record {
  action = action;
  selector = s.selector;
  value = s.value;
  credential_ref = s.credential_ref;
}

unfoldable pub build_steps : List RawStep → Outcome AdapterFault (List LoginStep)
unfolding build_step
build_steps [] = ok []
build_steps (s ∷ ss) = build_step s >>= λ step. build_steps ss >>= λ steps. ok (step ∷ steps)

unfoldable pub build_assertion : RawAssertion → Outcome AdapterFault SuccessAssertion
build_assertion a = key_of (codes "kind") a.kind >>= λ kind.
    key_of (codes "value") a.value >>= λ value. ok record { kind = kind; value = value }

abbrev or_form : Option Text → Text
or_form none = codes "form"
or_form (some s) = s

unfoldable pub build_login_recipe : RawRecipe → Outcome AdapterFault LoginRecipe
unfolding build_steps build_assertion
build_login_recipe raw = key_of (codes "steps") raw.steps >>= build_steps >>= λ steps.
    key_of (codes "success_assertion") raw.success_assertion >>= build_assertion >>= λ assertion.
    key_of (codes "start_url") raw.start_url >>= λ start_url. ok record {
      start_url = start_url;
      steps = steps;
      success_assertion = assertion;
      strategy = or_form raw.strategy;
    }

-- The reference of a step that fills in a secret; an empty one does not count.
abbrev secret_ref_of : StepAction → Option Text → Option Text
secret_ref_of fill_secret (some (c ∷ ref)) = some (c ∷ ref)
secret_ref_of _ ref = none

abbrev first_some : Option Text → Option Text → Option Text
first_some none rest = rest
first_some (some x) rest = some x

unfoldable pub secret_ref : List LoginStep → Option Text
secret_ref [] = none
secret_ref (s ∷ steps) = first_some (secret_ref_of s.action s.credential_ref) (secret_ref steps)

abbrev pub as_adapter_fault {ℓ κ} :
    {E : Type κ} {A : Type ℓ} → (E → AdapterFault) → Outcome E A → Outcome AdapterFault A
as_adapter_fault wrap (ok x) = ok x
as_adapter_fault wrap (raise e) = raise (wrap e)

-- crypto.decrypt(org_data_key, ciphertext).decode()
unfoldable pub decrypt_secret : Fernet → Bytes → Bytes → Outcome CryptoFault Text
unfolding decrypt
decrypt_secret f data_key ciphertext =
    decrypt f data_key ciphertext >>= λ plaintext. or_fault f decode_error (f.decode plaintext)

abbrev unavailable : UnavailableReason → PersonaAuthResult
unavailable r = record {
  available = false;
  unavailable_reason = some r;
  storage_state = none;
  session_oracle = none;
  oracle_detail = none;
}

-- A recipe that is None or has no key is none.
abbrev pub recipe_set : Option RawRecipe → Option RawRecipe
recipe_set none = none
recipe_set (some r) = by_keys r.start_url r.steps r.success_assertion r.strategy
  where
    by_keys :
        Option Text → Option (List RawStep) → Option RawAssertion → Option Text → Option RawRecipe
    by_keys none none none none = none
    by_keys _ _ _ _ = some r

-- hostname is None where it is empty.
abbrev host_of : SplitResult → Option Text
host_of parts = by_name (hostname parts)
  where
    by_name : Text → Option Text
    by_name [] = none
    by_name (c ∷ s) = some (c ∷ s)

-- What the browser and the two clients of the oracle's requests do.
pub record Outside : Type 0 where
  pub library : Library
  pub decode : List ℕ → Text
  pub page : ℕ → Reply
  pub stored : StorageState
  pub client : ℕ → Attempt
  pub anonymous_client : ℕ → Attempt

abbrev pub no_state : Option StorageState → StorageState
no_state none = record { cookies = none }
no_state (some s) = s

module _ (f : Fernet) (o : Outside) (e : HttpEngine) where
  unfoldable pub oracle_result :
      Text → PersonaSession → Outcome AdapterFault OracleEstablishmentResult
  unfolding establish_session_oracle session_state
  oracle_result probe_url session =
      as_adapter_fault engine_fault
        (establish_session_oracle o.decode o.library e o.client o.anonymous_client
          (session_state session) probe_url (codes "GET")).0

  -- After a login.
  unfoldable pub with_session :
      Text → Text → Text → Option StorageState → Outcome AdapterFault PersonaAuthResult
  unfolding oracle_result urlsplit hostname
  with_session persona_id start_url probe_url state =
      as_adapter_fault url_fault (urlsplit o.library start_url) >>= λ parts.
      oracle_result probe_url record {
        persona_id = persona_id;
        storage_state = no_state state;
        target_host = host_of parts;
      }
      >>= λ r. ok record {
        available = true;
        unavailable_reason = none;
        storage_state = state;
        session_oracle = r.oracle;
        oracle_detail = some r.detail;
      }

  abbrev after_replay :
      Text → Text → Text → LoginReplayResult → Outcome AdapterFault PersonaAuthResult
  after_replay persona_id start_url probe_url r =
      if not r.success
      then ok (unavailable (login_failed r.error))
      else with_session persona_id start_url probe_url r.storage_state

  -- With the credential under the reference.
  unfoldable pub login_with :
      Text → LoginRecipe → Text → Credentials → Outcome AdapterFault PersonaAuthResult
  unfolding replay with_session
  login_with persona_id recipe probe_url credentials =
      as_adapter_fault replay_fault (replay o.page o.stored recipe credentials).0
      >>= after_replay persona_id recipe.start_url probe_url

  abbrev with_ref :
      Bytes
      → Text
      → LoginRecipe
      → Text
      → StoredCredential
      → Option Text
      → Outcome AdapterFault PersonaAuthResult
  with_ref org_data_key persona_id recipe probe_url c none = ok (unavailable no_secret_step)
  with_ref org_data_key persona_id recipe probe_url c (some ref) =
      as_adapter_fault crypto_fault (decrypt_secret f org_data_key c.ciphertext) >>= λ plaintext.
      login_with persona_id recipe probe_url ((ref, record { ref = ref; secret = plaintext }) ∷ [])

  abbrev with_rows :
      Bytes
      → Text
      → Text
      → Option RawRecipe
      → Option StoredCredential
      → Outcome AdapterFault PersonaAuthResult
  with_rows org_data_key persona_id probe_url none credential = ok (unavailable no_recipe)
  with_rows org_data_key persona_id probe_url (some raw) none = ok (unavailable no_credential)
  with_rows org_data_key persona_id probe_url (some raw) (some c) =
      build_login_recipe raw >>= λ recipe.
      with_ref org_data_key persona_id recipe probe_url c (secret_ref recipe.steps)

  -- `establish_persona`; `persona_id` is str(persona.id).
  unfoldable pub establish_persona :
      Bytes → Text → Persona → Text → Outcome AdapterFault PersonaAuthResult
  unfolding build_login_recipe secret_ref decrypt_secret login_with
  establish_persona org_data_key persona_id persona oracle_probe_url =
      with_rows org_data_key persona_id oracle_probe_url (recipe_set persona.login_recipe)
        persona.credential
