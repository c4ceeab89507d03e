-- ===== src/Personas/Tests.antt =====
-- A cipher for which the laws hold, and a persona whose secret is stored and read.
use security_tool.Prelude.{true, ◌≡◌, refl, [], ◌∷◌, none, some, codes, Memᴰ, ok, find}
use security_tool.Targets.{Target, create_target}
use security_tool.Crypto.{MasterKeyProvider, wrap, unwrap}
use security_tool.Personas.{
  Organization, StoredCredential, CredentialCreate, PersonaCreate, Persona, Committed, password,
  create_organization, create_persona,
}
use security_tool.Personas.Login.{decrypt_secret}
use security_tool.Crypto.Sample.{cipher, cipher-IsCipher}
use security_tool.Personas.Secrets.{secret_comes_back}

abbrev service : MasterKeyProvider
service = record { master_keys = codes "new" ∷ codes "old" ∷ [] }

-- A worker that still has the keys in the other order.
abbrev worker : MasterKeyProvider
worker = record { master_keys = codes "old" ∷ codes "new" ∷ [] }

abbrev shop : Target
shop = create_target 1 7 (codes "shop.test") (codes "Shop") true

abbrev secret : CredentialCreate
secret = record { kind = password; secret = codes "hunter2" }

abbrev payload : PersonaCreate
payload = record {
  label = codes "admin";
  role_name = codes "admin";
  trust_rank = 3;
  tenant_key = none;
  login_strategy = none;
  credential = some secret;
  login_recipe = none;
  expected_denied = [];
}

abbrev nothing_yet : Committed
nothing_yet = record { credentials = []; personas = [] }

abbrev acme : Organization
acme = record {
  id = 7;
  name = codes "Acme";
  slug = codes "acme";
  wrapped_data_key = wrap cipher service [] (codes "data-key");
}

creates :
    create_organization cipher service (codes "data-key") [] 7 (codes "Acme") (codes "acme") []
    ≡ ok (acme, acme ∷ [])
unfolding create_organization find
creates = refl

secret_comes_back_example :
    (p : Persona) × (db' : Committed) × (row : StoredCredential) × (create_persona cipher service []
        1 2 acme shop payload nothing_yet
      ≡ ok (p, db'))
    × (p.credential ≡ some row)
    × (unwrap cipher worker acme.wrapped_data_key ≡ ok (codes "data-key"))
    × (decrypt_secret cipher (codes "data-key") row.ciphertext ≡ ok (codes "hunter2"))
secret_comes_back_example =
    secret_comes_back cipher cipher-IsCipher service worker (codes "new") (codes "old" ∷ [])
      (codes "data-key") [] [] 7 1 2 (codes "Acme") (codes "acme") [] shop payload secret
      nothing_yet refl (Memᴰ.tail (Memᴰ.head refl)) refl creates refl
