-- ===== src/Personas.antt =====
-- apps/api/sentinel_api_app: `create_organization` of routers/organizations.py, `create_persona` of
-- routers/personas.py and `get_current_org` of deps.py, with the rows of
-- packages/db/src/sentinel_db/models/organization.py and persona.py that they write. The columns
-- that no handler sets are left out, and identifiers are arguments.
pub mod Login
pub mod Secrets
mod Tests
use security_tool.Prelude.{
  ℕ, Bool, true, false, List, [], ◌∷◌, ◌++◌, Option, none, some, is_some, Text, ◌==◌, text_eq,
  nat_eq, find, if◌then◌else◌, Outcome, ok, raise, ◌>>=◌,
}
use security_tool.Targets.{Target, HttpError, unauthorized, bad_request, not_found, conflict}
use security_tool.Crypto.{Bytes, Fernet, MasterKeyProvider, CryptoFault, wrap, unwrap, encrypt}
use security_tool.Auth.Replay.{StepAction, AssertionKind}

pub data CredentialKind : Type 0 where
  password totp_secret api_token session_import : CredentialKind

pub data LoginStrategy : Type 0 where
  form oauth_redirect saml api_token_login har_replay manual_session : LoginStrategy

pub record Organization : Type 0 where
  pub id : ℕ
  pub name : Text
  pub slug : Text
  pub wrapped_data_key : Bytes

pub record StoredCredential : Type 0 where
  pub id : ℕ
  pub kind : CredentialKind
  pub ciphertext : Bytes

-- A step of a recipe as JSON: each key may be missing.
pub record RawStep : Type 0 where
  pub action : Option StepAction
  pub selector : Option Text
  pub value : Option Text
  pub credential_ref : Option Text

pub record RawAssertion : Type 0 where
  pub kind : Option AssertionKind
  pub value : Option Text

pub record RawRecipe : Type 0 where
  pub start_url : Option Text
  pub steps : Option (List RawStep)
  pub success_assertion : Option RawAssertion
  pub strategy : Option Text

pub record Persona : Type 0 where
  pub id : ℕ
  pub target_id : ℕ
  pub label : Text
  pub role_name : Text
  pub trust_rank : ℕ
  pub tenant_key : Option Text
  pub login_strategy : Option LoginStrategy
  pub credential : Option StoredCredential
  pub login_recipe : Option RawRecipe
  pub expected_denied : List Text

pub record CredentialCreate : Type 0 where
  pub kind : CredentialKind
  pub secret : Text

pub record PersonaCreate : Type 0 where
  pub label : Text
  pub role_name : Text
  pub trust_rank : ℕ
  pub tenant_key : Option Text
  pub login_strategy : Option LoginStrategy
  pub credential : Option CredentialCreate
  pub login_recipe : Option RawRecipe
  pub expected_denied : List Text

-- What the database's session adds and what a request leaves in it.
pub record Committed : Type 0 where
  pub credentials : List StoredCredential
  pub personas : List Persona

abbrev found : Option Organization → Outcome HttpError Organization
found none = raise not_found
found (some org) = ok org

abbrev by_uuid : List Organization → Option ℕ → Outcome HttpError Organization
by_uuid orgs none = raise bad_request
by_uuid orgs (some id) = found (find (λ o. o.id == id) orgs)

-- `get_current_org`: `uuid` is the constructor of the standard library, `none` being ValueError.
unfoldable pub get_current_org :
    (Text → Option ℕ) → List Organization → Option Text → Outcome HttpError Organization
unfolding find
get_current_org uuid orgs none = raise unauthorized
get_current_org uuid orgs (some []) = raise unauthorized
get_current_org uuid orgs (some (c ∷ header)) = by_uuid orgs (uuid (c ∷ header))

-- `create_organization`: the new row and all of them. The data key is fresh.
unfoldable pub create_organization :
    Fernet
    → MasterKeyProvider
    → Bytes
    → Bytes
    → ℕ
    → Text
    → Text
    → List Organization
    → Outcome HttpError (Organization × List Organization)
unfolding find wrap
create_organization f crypto data_key iv id name slug orgs =
    let org : Organization = record {
      id = id;
      name = name;
      slug = slug;
      wrapped_data_key = wrap f crypto iv data_key;
    } in
    if is_some (find (λ o. o.slug == slug) orgs) then raise conflict else ok (org, orgs ++ org ∷ [])

-- The row of a credential: its secret under the organization's data key.
unfoldable pub store_credential :
    Fernet
    → MasterKeyProvider
    → Bytes
    → ℕ
    → Organization
    → CredentialCreate
    → Outcome CryptoFault StoredCredential
unfolding unwrap encrypt
store_credential f crypto iv id org c = unwrap f crypto org.wrapped_data_key >>= λ data_key.
    encrypt f data_key iv (f.encode c.secret) >>= λ ciphertext.
    ok record { id = id; kind = c.kind; ciphertext = ciphertext }

abbrev pub optional_credential :
    (CredentialCreate → Outcome CryptoFault StoredCredential)
    → Option CredentialCreate
    → Outcome CryptoFault (Option StoredCredential)
optional_credential store none = ok none
optional_credential store (some c) = store c >>= λ row. ok (some row)

abbrev pub new_credentials : Option StoredCredential → List StoredCredential
new_credentials none = []
new_credentials (some c) = c ∷ []

unfoldable pub persona_row : ℕ → Target → PersonaCreate → Option StoredCredential → Persona
persona_row id target payload credential = record {
  id = id;
  target_id = target.id;
  label = payload.label;
  role_name = payload.role_name;
  trust_rank = payload.trust_rank;
  tenant_key = payload.tenant_key;
  login_strategy = payload.login_strategy;
  credential = credential;
  login_recipe = payload.login_recipe;
  expected_denied = payload.expected_denied;
}

-- `create_persona`: the row, and what is committed.
unfoldable pub create_persona :
    Fernet
    → MasterKeyProvider
    → Bytes
    → ℕ
    → ℕ
    → Organization
    → Target
    → PersonaCreate
    → Committed
    → Outcome CryptoFault (Persona × Committed)
unfolding store_credential persona_row
create_persona f crypto iv credential_id id org target payload db =
    optional_credential (store_credential f crypto iv credential_id org) payload.credential
    >>= λ credential. ok (
      persona_row id target payload credential,
      record {
        credentials = db.credentials ++ new_credentials credential;
        personas = db.personas ++ persona_row id target payload credential ∷ [];
      },
    )
