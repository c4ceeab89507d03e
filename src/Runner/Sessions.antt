-- ===== src/Runner/Sessions.antt =====
-- What the logins of a run leave: sessions in memory, and the rows of the personas.
use mathlib.Core.List.{append-nil, append_assoc}
use security_tool.Prelude.{
  Bool, true, false, List, [], ◌∷◌, ◌++◌, map, Option, Text, text_eq, contains, Distinct, All,
  Outcome, ok, raise, ◌≡◌, refl, ap, sym, ◌∙◌, Bool-cases, inl, inr,
}
use security_tool.Crypto.{Bytes, IsCipher, encrypt}
use security_tool.Engine.{HttpEngine}
use security_tool.Scope.{ScopeRule}
use security_tool.Targets.{Target}
use security_tool.Substrate.{build_scope_guard, build_http_engine}
use security_tool.Personas.{Persona, Organization}
use security_tool.Personas.Login.{PersonaAuthResult, AdapterFault}
use security_tool.Runner.Logins.{
  PersonaRow, Logins, Clients, no_logins, logged_in, left_out, record_result, log_in, login_loop,
  org_key, root_url_of, run_auth_establishing,
}
use security_tool.Runner.Kept.{
  count_available, id_of, ids, IsBacked, IsSound, encrypt-decrypts, left_out-IsSound,
  logged_in-IsSound, none_yet,
}

module _ (c : Clients) where
  abbrev pub was_available : Outcome AdapterFault PersonaAuthResult → Bool
  was_available (ok r) = r.available
  was_available (raise e) = false

  -- A persona, and whether its row says that it is available.
  abbrev pub logged : PersonaRow → Persona × Bool
  logged row = (row.persona, row.is_available)

  module _ (engine : HttpEngine) (key : Bytes) (probe_url : Text) where
    -- A persona, and whether its login succeeds.
    abbrev pub expected : PersonaRow → Persona × Bool
    expected row = (row.persona, was_available (log_in c engine key probe_url row))

    abbrev pub Returns : PersonaRow → Type 0
    Returns row = (r : PersonaAuthResult) × (log_in c engine key probe_url row ≡ ok r)

  module _ (cipher : IsCipher c.fernet) (engine : HttpEngine) (key : Bytes) (probe_url : Text)
      (valid : c.fernet.is_valid key ≡ true) where
    abbrev Recorded : PersonaRow → List PersonaRow → Logins → PersonaAuthResult → Type 0
    Recorded row rows s r =
        (s' : Logins) × (record_result c key row s r ≡ ok s')
        × IsSound c key rows s'
        × (map logged s'.rows ≡ map logged s.rows ++ (row.persona, r.available) ∷ [])

    map-snoc :
        (rows : List PersonaRow) (row : PersonaRow)
        → map logged (rows ++ row ∷ []) ≡ map logged rows ++ logged row ∷ []
    map-snoc [] row = refl
    map-snoc (r ∷ rows) row = ap (λ l. logged r ∷ l) (map-snoc rows row)

    record_result-Recorded :
        (row : PersonaRow) (rows : List PersonaRow) (s : Logins) (r : PersonaAuthResult)
        → contains (ids c rows) (id_of c row) ≡ false
        → IsSound c key (row ∷ rows) s
        → Recorded row rows s r
    unfolding record_result encrypt
    record_result-Recorded row rows s r new sound = elim (Bool-cases r.available) [
      | inr e ↦ (
        left_out row r s,
        rw e refl,
        left_out-IsSound c key row rows s r new e sound,
        map-snoc s.rows _,
      )
      | inl e ↦
          let iv = c.iv (id_of c row) in
          let ciphertext = c.fernet.encrypt key iv (c.fernet.encode (c.dumps r.storage_state)) in
          (
            logged_in (id_of c row) row r ciphertext s,
            rw (e, valid) refl,
            logged_in-IsSound c key row rows s r ciphertext new e
                (encrypt-decrypts c cipher key iv ciphertext (c.dumps r.storage_state)
                  (rw valid refl))
                sound,
            map-snoc s.rows _,
          )
    ]

    abbrev Completed : List PersonaRow → Logins → Type 0
    Completed rows s =
        (s' : Logins) × (login_loop c engine key probe_url rows s ≡ ok s')
        × IsSound c key [] s'
        × (map logged s'.rows ≡ map logged s.rows ++ map (expected engine key probe_url) rows)

    login_loop-Completed :
        (rows : List PersonaRow) (s : Logins)
        → Distinct (ids c rows)
        → All (Returns engine key probe_url) rows
        → IsSound c key rows s
        → Completed rows s
    unfolding login_loop
    login_loop-Completed [] s d returns sound =
        (s, refl, sound, sym (append-nil (map logged s.rows)))
    login_loop-Completed (row ∷ rows) s d ((r, e), returns) sound =
        let (t, recorded, sound', rows') = record_result-Recorded row rows s r d.0 sound in
        let (s', looped, sound'', rows'') = login_loop-Completed rows t d.1 returns sound' in
        (s', rw (e, recorded, looped) refl, sound'', ends (map logged s.rows) e rows' rows'')
      where
        ends :
            {r : PersonaAuthResult} (start : List (Persona × Bool))
            {done end : List (Persona × Bool)}
            → log_in c engine key probe_url row ≡ ok r
            → done ≡ start ++ (row.persona, r.available) ∷ []
            → end ≡ done ++ map (expected engine key probe_url) rows
            → end ≡ start ++ map (expected engine key probe_url) (row ∷ rows)
        ends start e a b = rw e (
            b
            ∙ ap (λ l. l ++ map (expected engine key probe_url) rows) a
            ∙ append_assoc start (_ ∷ []) (map (expected engine key probe_url) rows))

  -- The logins of a run return if the login of each persona does and the organization's key
  -- opens. The rows are those of the personas that were given, each marked as its login came
  -- out; the statistics count the available ones; an available persona has a session in memory
  -- and its encrypted copy, which decrypts to the dumped state; another one has no session. The
  -- identifiers differ, the key is valid, and the cipher is as documented.
  pub run_auth_establishing-IsBacked :
      (cipher : IsCipher c.fernet) (key : Bytes) (kms_master_key : Text) (org : Organization)
      (target : Target) (scope_rules : List ScopeRule) (oracle_probe_url : Option Text)
      (rows : List PersonaRow)
      → let engine = build_http_engine (build_scope_guard target scope_rules) in
        let probe_url = root_url_of target oracle_probe_url in
        c.fernet.is_valid key ≡ true
        → org_key c kms_master_key org ≡ ok key
        → Distinct (ids c rows)
        → All (Returns engine key probe_url) rows
        → (s : Logins) × (run_auth_establishing c kms_master_key org target scope_rules
              oracle_probe_url rows
            ≡ ok s)
          × All (IsBacked c key s.in_memory_sessions) s.rows
          × (s.personas_available ≡ count_available s.rows)
          × (map logged s.rows ≡ map (expected engine key probe_url) rows)
  unfolding run_auth_establishing
  run_auth_establishing-IsBacked cipher key kms_master_key org target scope_rules oracle_probe_url
        [] valid opens d returns =
      (no_logins, refl, tt, refl, refl)
  run_auth_establishing-IsBacked cipher key kms_master_key org target scope_rules oracle_probe_url
        (row ∷ rows) valid opens d returns =
      let (s, looped, (backed, apart, fresh, count), logs) =
        login_loop-Completed cipher (build_http_engine (build_scope_guard target scope_rules)) key
          (root_url_of target oracle_probe_url) valid (row ∷ rows) no_logins d returns
          (tt, tt, none_yet c (row ∷ rows), refl) in
      (s, rw opens looped, backed, count, logs)
