-- ===== src/Crawler/Steps.antt =====
-- What recording an endpoint and adding a note keep, every step between two visits keeps.
use security_tool.Prelude.{
  ◌≡◌, refl, subst, List, [], ◌∷◌, ◌++◌, Text, codes, upper, upper_idem, or_text, Bool-cases, inl,
  inr, Outcome, ok, raise, ◌>>=◌, >>=-eq-ok, contains, text_eq, if◌then◌else◌, ◌||◌,
}
use security_tool.Url.{Library, Fault, urlsplit}
use security_tool.Scope.Destructive.{DestructiveCheck, check}
use security_tool.SurfaceMapper.{normalize_path}
use security_tool.SurfaceMapper.Laws.{normalize_path_idem}
use security_tool.Crawler.{
  Page, read_page, read_links, read_forms, record_found, extract_same_origin_links, extract_forms,
  Crawl, PersonaCrawler, NetworkRequest, DiscoverySource, record_template, record_endpoint,
  record_network_request, record_requests, record_forms, follow_links, link, network, form,
  interesting_resource_types, or_state, scope_allows,
}

module _ (lib : Library) (c : PersonaCrawler) (P : Crawl → Type 0)
    (keeps : (m template url : Text) (source : DiscoverySource) (s : Crawl)
      → upper m ≡ m
      → normalize_path template ≡ template
      → P s
      → P (record_template m template url source s)) where
  pub record_endpoint-keeps :
      (m url : Text) (source : DiscoverySource) (s : Crawl) {t : Crawl}
      → record_endpoint lib m url source s ≡ ok t
      → P s
      → P t
  unfolding record_endpoint
  record_endpoint-keeps m url source s {t} e h =
      let (parts, a, b) =
        >>=-eq-ok (urlsplit lib url)
          (λ parts. ok (
            record_template (upper m) (normalize_path (or_text parts.path (codes "/"))) url source
              s))
          e in
      let q : record_template (upper m) (normalize_path (or_text parts.path (codes "/"))) url source
            s
          ≡ t =
        cc in
      subst P q (keeps _ _ url source s (upper_idem m) (normalize_path_idem _) h)

  or_state-keeps :
      (o : Outcome Fault Crawl) (s : Crawl)
      → ((t : Crawl) → o ≡ ok t → P t)
      → P s
      → P (or_state o s)
  or_state-keeps (ok t) s k h = k t refl
  or_state-keeps (raise f) s k h = h

  pub record_network_request-keeps :
      (r : NetworkRequest) (s : Crawl) → P s → P (record_network_request lib c r s)
  unfolding record_network_request
  record_network_request-keeps r s h =
      elim (Bool-cases (contains interesting_resource_types r.resource_type)) [
        | inr n ↦ rw n h
        | inl i ↦ elim (Bool-cases (scope_allows lib c r.method r.url)) [
          | inr n ↦ rw (i, n) h
          | inl a ↦
              rw (i, a)
                (or_state-keeps (record_endpoint lib r.method r.url network s) s
                  (λ t e. record_endpoint-keeps r.method r.url network s e h) h)
        ]
      ]

  pub record_requests-keeps :
      (rs : List NetworkRequest) (s : Crawl) → P s → P (record_requests lib c rs s)
  unfolding record_requests
  record_requests-keeps [] s h = h
  record_requests-keeps (r ∷ rs) s h =
      record_requests-keeps rs (record_network_request lib c r s)
        (record_network_request-keeps r s h)

  pub record_forms-keeps :
      (fs : List (Text × Text)) (s : Crawl) {t : Crawl} → record_forms lib fs s ≡ ok t → P s → P t
  unfolding record_forms
  record_forms-keeps [] s {t} e h = let q : s ≡ t = cc in subst P q h
  record_forms-keeps (f ∷ fs) s e h =
      let (u, a, b) = >>=-eq-ok (record_endpoint lib f.0 f.1 form s) (record_forms lib fs) e in
      record_forms-keeps fs u b (record_endpoint-keeps f.0 f.1 form s a h)

  abbrev follow_rest :
      Text → List Text → List Text → Crawl → DestructiveCheck → Outcome Fault (List Text × Crawl)
  follow_rest l ls queue s verdict =
      if verdict.is_suspect
      then record_endpoint lib (codes "GET") l link s >>= follow_links lib c ls queue
      else follow_links lib c ls (queue ++ l ∷ []) s

  pub follow_links-keeps :
      (ls queue : List Text) (s : Crawl) {t : List Text × Crawl}
      → follow_links lib c ls queue s ≡ ok t
      → P s
      → P t.1
  unfolding follow_links
  follow_links-keeps [] queue s {t} e h =
      let q : (queue, s) ≡ t = cc in subst (λ (x : List Text × Crawl). P x.1) q h
  follow_links-keeps (l ∷ ls) queue s e h =
      elim (Bool-cases (contains s.visited l || contains queue l)) [
        | inl k ↦ follow_links-keeps ls queue s (rw k at e) h
        | inr k ↦
            let (verdict, a, b) =
              >>=-eq-ok (check lib c.destructive_guard (codes "GET") l [])
                (follow_rest l ls queue s) (rw k at e) in
            elim (Bool-cases verdict.is_suspect) [
              | inl v ↦
                  let (u, x, y) =
                    >>=-eq-ok (record_endpoint lib (codes "GET") l link s)
                      (follow_links lib c ls queue) (rw v at b) in
                  follow_links-keeps ls queue u y (record_endpoint-keeps (codes "GET") l link s x h)
              | inr v ↦ follow_links-keeps ls (queue ++ l ∷ []) s (rw v at b) h
            ]
      ]

  pub read_page-keeps :
      (url : Text) (p : Page) (queue : List Text) (s : Crawl) {t : List Text × Crawl}
      → read_page lib c url p queue s ≡ ok t
      → P (record s { visited = url ∷ s.visited })
      → P t.1
  unfolding read_page
  read_page-keeps url p queue s e h =
      let s' : Crawl = record s { visited = url ∷ s.visited } in
      let (recorded, a, b) =
        >>=-eq-ok (record_endpoint lib (codes "GET") url link s') (read_links lib c p queue) e in
      let (links, x, y) =
        >>=-eq-ok (extract_same_origin_links lib recorded.surface.root_url p.hrefs)
          (read_forms lib c p queue recorded) b in
      let (forms, k, l) =
        >>=-eq-ok (extract_forms lib recorded.surface.root_url p.forms)
          (record_found lib c p queue recorded links) y in
      let asked = record_requests lib c p.late_requests recorded in
      let (after, m, n) =
        >>=-eq-ok (record_forms lib forms asked) (follow_links lib c links queue) l in
      follow_links-keeps links queue after n (
        record_forms-keeps forms asked m (
          record_requests-keeps p.late_requests recorded
            (record_endpoint-keeps (codes "GET") url link s' a h)))
