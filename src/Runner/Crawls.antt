-- ===== src/Runner/Crawls.antt =====
-- The crawls of a run: whose they are.
use security_tool.Prelude.{
  Bool, List, [], ◌∷◌, ◌++◌, map, Option, none, some, Text, codes, filter, All, ok, ◌>>=◌,
  >>=-eq-ok, ok_inj, ◌≡◌, refl, ap, subst, ◌∙◌, Bool-cases, inl, inr,
}
use security_tool.Url.{Library}
use security_tool.Scope.{ScopeRule}
use security_tool.Auth.{StorageState}
use security_tool.Targets.{Target}
use security_tool.Crypto.{Bytes}
use security_tool.Personas.Login.{no_state}
use security_tool.Crawler.{PersonaCrawler, SurfaceMap, crawl}
use security_tool.Crawler.Endpoints.{crawl-persona_id}
use security_tool.Runner.Logins.{
  PersonaRow, Clients, Browser, session_for, crawl_as, crawl_persona, crawl_personas, new_crawler,
  root_url_of, run_crawling,
}
use security_tool.Runner.Kept.{id_of, HasSession, IsBacked}

abbrev pub whose : SurfaceMap → Text
whose s = s.persona_id

abbrev pub is_available : PersonaRow → Bool
is_available row = row.is_available

map-append : (xs ys : List SurfaceMap) → map whose (xs ++ ys) ≡ map whose xs ++ map whose ys
map-append [] ys = refl
map-append (x ∷ xs) ys = ap (λ l. whose x ∷ l) (map-append xs ys)

module _ (lib : Library) (browser : Browser) (c : Clients) where
  crawl_as-whose :
      (crawler : PersonaCrawler) (root_url id : Text) (state : Option StorageState) (s : SurfaceMap)
      → crawl_as lib browser c.str crawler root_url id state ≡ ok s
      → s.persona_id ≡ id
  unfolding crawl_as
  crawl_as-whose crawler root_url id state s e =
      let (t, a, b) =
        >>=-eq-ok (crawl lib crawler (browser id state) root_url id) (λ t. ok t.surface) e in
      rw (← ok_inj b) (crawl-persona_id lib crawler (browser id state) root_url id t a)

  crawl_persona-none :
      (crawler : PersonaCrawler) (root_url id : Text) (o : Option StorageState)
      (surfaces : List SurfaceMap)
      → o ≡ none
      → crawl_persona lib browser c.str crawler root_url id o ≡ ok surfaces
      → map whose surfaces ≡ []
  crawl_persona-none crawler root_url id none surfaces n e = rw (← ok_inj e) refl
  crawl_persona-none crawler root_url id (some state) surfaces n e = cc

  crawl_persona-some :
      (crawler : PersonaCrawler) (root_url id : Text) (o : Option StorageState)
      (state : StorageState) (surfaces : List SurfaceMap)
      → o ≡ some state
      → crawl_persona lib browser c.str crawler root_url id o ≡ ok surfaces
      → map whose surfaces ≡ id ∷ []
  crawl_persona-some crawler root_url id none state surfaces n e = cc
  crawl_persona-some crawler root_url id (some state) other surfaces n e =
      let (s, a, b) =
        >>=-eq-ok (crawl_as lib browser c.str crawler root_url id (some state)) (λ s. ok (s ∷ []))
          e in
      rw (← ok_inj b) (ap (λ i. i ∷ []) (crawl_as-whose crawler root_url id (some state) s a))

  -- One round of the loop crawls as the persona if it is available.
  crawl_persona-whose :
      (crawler : PersonaCrawler) (root_url : Text) (key : Bytes)
      (sessions : List (Text × StorageState)) (row : PersonaRow) (rows : List PersonaRow)
      (surfaces : List SurfaceMap)
      → IsBacked c key sessions row
      → crawl_persona lib browser c.str crawler root_url
          (id_of c row)
          (session_for (id_of c row) sessions)
        ≡ ok surfaces
      → map whose surfaces ++ map (id_of c) (filter is_available rows)
        ≡ map (id_of c) (filter is_available (row ∷ rows))
  unfolding filter
  crawl_persona-whose crawler root_url key sessions row rows surfaces h e =
      elim (Bool-cases row.is_available) [
        | inl y ↦
            let (state, ciphertext, a, b, k) = subst (HasSession c key sessions row) y h in
            let only =
              crawl_persona-some crawler root_url (id_of c row) (session_for (id_of c row) sessions)
                (no_state state) surfaces k e in
            rw (y, only) refl
        | inr n ↦
            let k = subst (HasSession c key sessions row) n h in
            let nobody =
              crawl_persona-none crawler root_url (id_of c row) (session_for (id_of c row) sessions)
                surfaces k e in
            rw (n, nobody) refl
      ]

  crawl_personas-whose :
      (crawler : PersonaCrawler) (root_url : Text) (key : Bytes)
      (sessions : List (Text × StorageState)) (rows : List PersonaRow) (surfaces : List SurfaceMap)
      → All (IsBacked c key sessions) rows
      → crawl_personas lib browser c.str crawler root_url sessions rows ≡ ok surfaces
      → map whose surfaces ≡ map (id_of c) (filter is_available rows)
  unfolding crawl_personas filter
  crawl_personas-whose crawler root_url key sessions [] surfaces h e = rw (← ok_inj e) refl
  crawl_personas-whose crawler root_url key sessions (row ∷ rows) surfaces h e =
      let (first, a, b) =
        >>=-eq-ok
          (crawl_persona lib browser c.str crawler root_url (id_of c row)
            (session_for (id_of c row) sessions))
          (λ first. crawl_personas lib browser c.str crawler root_url sessions rows >>= λ rest.
            ok (first ++ rest))
          e in
      let (rest, u, v) =
        >>=-eq-ok (crawl_personas lib browser c.str crawler root_url sessions rows)
          (λ rest. ok (first ++ rest)) b in
      rw (← ok_inj v) (
        map-append first rest
        ∙ ap (λ l. map whose first ++ l)
            (crawl_personas-whose crawler root_url key sessions rows rest h.1 u)
        ∙ crawl_persona-whose crawler root_url key sessions row rows first h.0 a)

  -- A run crawls anonymously first, and then once as each persona that its row marks as available,
  -- in the order of the rows and as nobody else, where an available persona has a session in
  -- memory and another one has none.
  pub run_crawling-whose :
      (target : Target) (scope_rules : List ScopeRule) (rows : List PersonaRow) (key : Bytes)
      (sessions : List (Text × StorageState)) (root_url : Option Text) (surfaces : List SurfaceMap)
      → All (IsBacked c key sessions) rows
      → run_crawling lib browser c.str target scope_rules rows sessions root_url ≡ ok surfaces
      → map whose surfaces ≡ codes "anonymous" ∷ map (id_of c) (filter is_available rows)
  unfolding run_crawling
  run_crawling-whose target scope_rules rows key sessions root_url surfaces h e =
      let crawler = new_crawler target scope_rules in
      let url = root_url_of target root_url in
      let (first, a, b) =
        >>=-eq-ok (crawl_as lib browser c.str crawler url (codes "anonymous") none)
          (λ first. crawl_personas lib browser c.str crawler url sessions rows >>= λ rest.
            ok (first ∷ rest))
          e in
      let (rest, u, v) =
        >>=-eq-ok (crawl_personas lib browser c.str crawler url sessions rows)
          (λ rest. ok (first ∷ rest)) b in
      let x = crawl_as-whose crawler url (codes "anonymous") none first a in
      let y = crawl_personas-whose crawler url key sessions rows rest h u in
      rw (← ok_inj v, x, y) refl
