-- ===== src/Runner/Refined.antt =====
-- The detailed logins and crawls against the orchestrator's view of them.
use security_tool.Prelude.{
  Bool, true, false, not, List, [], ◌∷◌, map, none, Text, codes, text_eq, filter, Distinct, All,
  if◌then◌else◌, ok, ◌≡◌, refl, ap, sym, subst, ◌∙◌,
}
use security_tool.Crypto.{Bytes, IsCipher}
use security_tool.Auth.{StorageState}
use security_tool.Crawler.{SurfaceMap}
use security_tool.Personas.{Persona}
use security_tool.Substrate.{build_scope_guard, build_http_engine}
use security_tool.Runner.{
  Facts, Established, is_empty, configured, available_personas, crawled_as, logs_in,
}
use security_tool.Runner.Logins.{
  PersonaRow, Logins, org_key, root_url_of, run_auth_establishing, run_crawling,
}
use security_tool.Runner.Kept.{id_of, ids, IsBacked}
use security_tool.Runner.Sessions.{Returns, run_auth_establishing-IsBacked}
use security_tool.Runner.Crawls.{whose, is_available, run_crawling-whose}
use security_tool.Runner.Details.{
  Details, configured_personas, established, brief, logins, found_by_crawls, crawls, facts_of,
}
use security_tool.Runner.Briefs.{
  persona_of, same_personas, same_briefs, all-IsMarked, available-marked,
}

none_or_all :
    (l : List security_tool.Runner.Persona) (q : security_tool.Runner.Persona → Bool)
    → ◌≡◌ {A = List Text}
        (codes "anonymous" ∷ (if not (is_empty l) then map (λ p. p.id) (filter q l) else []))
        (codes "anonymous" ∷ map (λ p. p.id) (filter q l))
unfolding filter
none_or_all [] q = refl
none_or_all (p ∷ l) q = refl

-- With a master key, the orchestrator's view names the anonymous crawl and the available personas.
crawled_as-available :
    (f : Facts)
    → f.has_master_key ≡ true
    → crawled_as f ≡ codes "anonymous" ∷ map (λ p. p.id) (available_personas f)
unfolding crawled_as available_personas configured filter
crawled_as-available f k = rw k (none_or_all (configured f) _)

module _ (d : Details) where
  found_by_crawls-logins :
      (s : Logins)
      → is_empty d.kms_master_key ≡ false
      → logins d ≡ ok s
      → found_by_crawls d ≡ (s.rows, s.in_memory_sessions)
  found_by_crawls-logins s k e = rw (k, e) refl

  logins-eq :
      (s : Logins)
      → run_auth_establishing d.clients d.kms_master_key d.org d.target d.scope_rules none
          (configured_personas d.personas)
        ≡ ok s
      → logins d ≡ ok s
  unfolding logins
  logins-eq s e = e

  available_personas-facts_of :
      available_personas (facts_of d)
      ≡ filter
          (λ p. (established d.clients.str p.id (found_by_crawls d).0).available)
          (filter
            (λ p. p.has_login_recipe)
            (map (λ row. brief d.clients.str row.persona) d.personas))
  unfolding available_personas configured facts_of
  available_personas-facts_of = refl

  has_master_key-facts_of : is_empty d.kms_master_key ≡ false → (facts_of d).has_master_key ≡ true
  unfolding facts_of
  has_master_key-facts_of k = ap not k

  -- The orchestrator's view of who is available is that of the rows after the logins.
  available_personas-rows :
      (s : Logins)
      → found_by_crawls d ≡ (s.rows, s.in_memory_sessions)
      → map persona_of s.rows ≡ map persona_of (configured_personas d.personas)
      → Distinct (ids d.clients s.rows)
      → map (λ p. p.id) (available_personas (facts_of d))
        ≡ map (id_of d.clients) (filter is_available s.rows)
  available_personas-rows s found same distinct =
      ap (map (λ p. p.id)) (
        available_personas-facts_of
        ∙ ap
            (λ (r : List PersonaRow × List (Text × StorageState)).
              filter (λ p. (established d.clients.str p.id r.0).available)
                (filter (λ p. p.has_login_recipe)
                  (map (λ row. brief d.clients.str row.persona) d.personas)))
            found
        ∙ ap (filter (λ p. (established d.clients.str p.id s.rows).available))
            (same_briefs d.clients d.personas s.rows same))
      ∙ available-marked d.clients s.rows s.rows (all-IsMarked d.clients s.rows distinct)

  ids-same :
      (rows rows' : List PersonaRow)
      → map persona_of rows ≡ map persona_of rows'
      → ids d.clients rows ≡ ids d.clients rows'
  ids-same rows rows' e =
      ids-persona rows ∙ ap (map (λ (p : Persona). d.clients.str p.id)) e ∙ sym (ids-persona rows')
    where
      ids-persona :
          (l : List PersonaRow)
          → ids d.clients l ≡ map (λ (p : Persona). d.clients.str p.id) (map persona_of l)
      ids-persona [] = refl
      ids-persona (row ∷ l) = ap (λ t. id_of d.clients row ∷ t) (ids-persona l)

  login-facts_of : (s : Logins) → logins d ≡ ok s → (facts_of d).login ≡ ok tt
  unfolding facts_of
  login-facts_of s e = rw e refl

  crawls-whose :
      (s : Logins) (key : Bytes) (surfaces : List SurfaceMap)
      → found_by_crawls d ≡ (s.rows, s.in_memory_sessions)
      → All (IsBacked d.clients key s.in_memory_sessions) s.rows
      → crawls d ≡ ok surfaces
      → map whose surfaces ≡ codes "anonymous" ∷ map (id_of d.clients) (filter is_available s.rows)
  unfolding crawls
  crawls-whose s key surfaces found backed e =
      run_crawling-whose d.lib d.browser d.clients d.target d.scope_rules s.rows key
        s.in_memory_sessions none surfaces backed
        (subst
          (λ (r : List PersonaRow × List (Text × StorageState)).
            run_crawling d.lib d.browser d.clients.str d.target d.scope_rules r.0 r.1 none
            ≡ ok surfaces)
          found e)

  -- The detailed logins and crawls of a run refine what the orchestrator assumes of them: the
  -- logins return, and the surfaces of the crawls are those that its view of the personas names,
  -- the anonymous one and then one for each available persona. There is a master key that opens
  -- the organization's valid key, the login of each configured persona returns, their identifiers
  -- differ, the cipher is as documented, and the crawls end without an exception.
  pub crawls-refine :
      (cipher : IsCipher d.clients.fernet) (key : Bytes) (surfaces : List SurfaceMap)
      → let engine = build_http_engine (build_scope_guard d.target d.scope_rules) in
        let rows = configured_personas d.personas in
        is_empty d.kms_master_key ≡ false
        → d.clients.fernet.is_valid key ≡ true
        → org_key d.clients d.kms_master_key d.org ≡ ok key
        → Distinct (ids d.clients rows)
        → All (Returns d.clients engine key (root_url_of d.target none)) rows
        → crawls d ≡ ok surfaces
        → ((facts_of d).login ≡ ok tt) × (map whose surfaces ≡ crawled_as (facts_of d))
  crawls-refine cipher key surfaces k valid opens distinct returns e =
      let rows = configured_personas d.personas in
      let engine = build_http_engine (build_scope_guard d.target d.scope_rules) in
      let (s, ran, backed, count, logs) =
        run_auth_establishing-IsBacked d.clients cipher key d.kms_master_key d.org d.target
          d.scope_rules none rows valid opens distinct returns in
      let found = found_by_crawls-logins s k (logins-eq s ran) in
      let same = same_personas d.clients rows s.rows engine key (root_url_of d.target none) logs in
      (
        login-facts_of s (logins-eq s ran),
        crawls-whose s key surfaces found backed e
            ∙ sym (
                crawled_as-available (facts_of d) (has_master_key-facts_of k)
                ∙ ap (λ l. codes "anonymous" ∷ l)
                    (available_personas-rows s found same
                      (subst Distinct (sym (ids-same s.rows rows same)) distinct))),
      )
