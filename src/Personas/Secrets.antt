-- ===== src/Personas/Secrets.antt =====
-- The secret of a persona, from the request that stores it to the login that uses it.
use security_tool.Prelude.{
  ℕ, true, List, [], ◌∷◌, ◌++◌, Option, some, is_some, Text, find, ◌==◌, text_eq, Outcome, ok,
  ◌>>=◌, ◌≡◌, refl, sym, ap, subst, ◌∙◌, Memᴰ, Bool-cases, inl, inr, ok_inj, raise_no_ok,
}
use security_tool.Targets.{Target}
use security_tool.Crypto.{
  Bytes, Fernet, IsCipher, MasterKeyProvider, CryptoFault, wrap, unwrap, encrypt, decrypt,
}
use security_tool.Personas.{
  Organization, StoredCredential, CredentialCreate, PersonaCreate, Persona, Committed,
  create_organization, create_persona, store_credential, persona_row, optional_credential,
  new_credentials,
}
use security_tool.Personas.Login.{decrypt_secret}

module _ (f : Fernet) (cipher : IsCipher f) where
  unwrap-wrap :
      (crypto worker : MasterKeyProvider) (master : Bytes) (others : List Bytes)
      (iv data_key : Bytes)
      → crypto.master_keys ≡ master ∷ others
      → Memᴰ master worker.master_keys
      → unwrap f worker (wrap f crypto iv data_key) ≡ ok data_key
  unfolding unwrap wrap
  unwrap-wrap crypto worker master others iv data_key e m =
      rw (e, cipher.multi_decrypt-encrypt master others worker.master_keys iv data_key m) refl

  create_organization-wrapped :
      (crypto : MasterKeyProvider) (data_key iv : Bytes) (id : ℕ) (name slug : Text)
      (orgs : List Organization) {org : Organization} {orgs' : List Organization}
      → create_organization f crypto data_key iv id name slug orgs ≡ ok (org, orgs')
      → org.wrapped_data_key ≡ wrap f crypto iv data_key
  unfolding create_organization
  create_organization-wrapped crypto data_key iv id name slug orgs h =
      elim (Bool-cases (is_some (find (λ (o : Organization). o.slug == slug) orgs))) [
        | inl k ↦ absurd (raise_no_ok (rw k at h))
        | inr k ↦
            ap (λ (x : Organization × List Organization). x.0.wrapped_data_key)
              (sym (ok_inj (rw k at h)))
      ]

  decrypt_secret-encrypt :
      (data_key iv : Bytes) (secret : Text)
      → f.is_valid data_key ≡ true
      → (ciphertext : Bytes) × (encrypt f data_key iv (f.encode secret) ≡ ok ciphertext)
        × (decrypt_secret f data_key ciphertext ≡ ok secret)
  unfolding encrypt decrypt_secret decrypt
  decrypt_secret-encrypt data_key iv secret h = (
    f.encrypt data_key iv (f.encode secret),
    rw h refl,
    rw (h, cipher.decrypt-encrypt data_key iv (f.encode secret) h, cipher.decode-encode secret)
        refl,
  )

  persona_row-credential :
      (id : ℕ) (target : Target) (payload : PersonaCreate) (o : Option StoredCredential)
      → (persona_row id target payload o).credential ≡ o
  unfolding persona_row
  persona_row-credential id target payload o = refl

  store_credential-stored :
      (crypto : MasterKeyProvider) (iv : Bytes) (id : ℕ) (org : Organization) (c : CredentialCreate)
      (data_key ciphertext : Bytes)
      → unwrap f crypto org.wrapped_data_key ≡ ok data_key
      → encrypt f data_key iv (f.encode c.secret) ≡ ok ciphertext
      → store_credential f crypto iv id org c
        ≡ ok record { id = id; kind = c.kind; ciphertext = ciphertext }
  unfolding store_credential
  store_credential-stored crypto iv id org c data_key ciphertext a b = rw (a, b) refl

  abbrev with_persona : StoredCredential → ℕ → Target → PersonaCreate → Committed → Committed
  with_persona row id target payload db = record {
    credentials = db.credentials ++ new_credentials (some row);
    personas = db.personas ++ persona_row id target payload (some row) ∷ [];
  }

  create_persona-stored :
      (crypto : MasterKeyProvider) (iv : Bytes) (credential_id id : ℕ) (org : Organization)
      (target : Target) (payload : PersonaCreate) (c : CredentialCreate) (row : StoredCredential)
      (db : Committed)
      → payload.credential ≡ some c
      → store_credential f crypto iv credential_id org c ≡ ok row
      → create_persona f crypto iv credential_id id org target payload db
        ≡ ok (persona_row id target payload (some row), with_persona row id target payload db)
  unfolding create_persona
  create_persona-stored crypto iv credential_id id org target payload c row db a b =
      ap (λ o. optional_credential (store_credential f crypto iv credential_id org) o >>= kept) a
      ∙ ap (λ (r : Outcome CryptoFault StoredCredential). (r >>= λ x. ok (some x)) >>= kept) b
    where
      kept : Option StoredCredential → Outcome CryptoFault (Persona × Committed)
      kept credential = ok (
        persona_row id target payload credential,
        record {
          credentials = db.credentials ++ new_credentials credential;
          personas = db.personas ++ persona_row id target payload credential ∷ [];
        },
      )

  -- The secret of a persona's credential comes back. For an organization that was created with a
  -- valid data key, `create_persona` with a secret succeeds and stores a credential; a worker
  -- whose master keys contain the first one of the service, wherever it stands among them, unwraps
  -- the data key, and with it decrypts the secret. The cipher is as documented.
  pub secret_comes_back :
      (crypto worker : MasterKeyProvider) (master : Bytes) (others : List Bytes)
      (data_key iv iv' : Bytes) (id credential_id persona_id : ℕ) (name slug : Text)
      (orgs : List Organization) (target : Target) (payload : PersonaCreate) (c : CredentialCreate)
      (db : Committed) {org : Organization} {orgs' : List Organization}
      → crypto.master_keys ≡ master ∷ others
      → Memᴰ master worker.master_keys
      → f.is_valid data_key ≡ true
      → create_organization f crypto data_key iv id name slug orgs ≡ ok (org, orgs')
      → payload.credential ≡ some c
      → (p : Persona) × (db' : Committed) × (row : StoredCredential) × (create_persona f crypto iv'
            credential_id persona_id org target payload db
          ≡ ok (p, db'))
        × (p.credential ≡ some row)
        × (unwrap f worker org.wrapped_data_key ≡ ok data_key)
        × (decrypt_secret f data_key row.ciphertext ≡ ok c.secret)
  secret_comes_back crypto worker master others data_key iv iv' id credential_id persona_id name
        slug orgs target payload c db {org} m w valid created given =
      let (ciphertext, enc, dec) = decrypt_secret-encrypt data_key iv' c.secret valid in
      let row : StoredCredential = record {
        id = credential_id;
        kind = c.kind;
        ciphertext = ciphertext;
      } in
      (
        persona_row persona_id target payload (some row),
        with_persona row persona_id target payload db,
        row,
        create_persona-stored crypto iv' credential_id persona_id org target payload c row db given
            (store_credential-stored crypto iv' credential_id org c data_key ciphertext
              (unwrapped crypto (subst (Memᴰ master) (sym m) (Memᴰ.head refl))) enc),
        persona_row-credential persona_id target payload (some row),
        unwrapped worker w,
        dec,
      )
    where
      unwrapped :
          (p : MasterKeyProvider)
          → Memᴰ master p.master_keys
          → unwrap f p org.wrapped_data_key ≡ ok data_key
      unwrapped p h =
          subst (λ z. unwrap f p z ≡ ok data_key)
            (sym (create_organization-wrapped crypto data_key iv id name slug orgs created))
            (unwrap-wrap crypto p master others iv data_key m h)
