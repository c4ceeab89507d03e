-- ===== src/Crawler/Endpoints.antt =====
-- The endpoints of a surface map: one for a method and a template.
use security_tool.Prelude.{
  ℕ, zero, suc, ◌≡◌, refl, ap, subst, ◌∙◌, List, [], ◌∷◌, ◌++◌, map, Option, none, some, Text,
  codes, Bool-cases, inl, inr, ok, >>=-eq-ok, ok_inj, contains, text_eq, Distinct, Distinct-snoc,
  All, All-snoc, upper,
}
use security_tool.Url.{Library}
use security_tool.Scope.{is_allowed, evaluate}
use security_tool.Scope.Destructive.{check}
use security_tool.SurfaceMapper.{normalize_path}
use security_tool.Crawler.{
  Crawl, DiscoveredEndpoint, PersonaCrawler, Page, Visit, Inspected, skipped, loaded, inspect,
  read_page, crawl_loop, crawl, record_template, record_requests, open_page, inspect_checked,
  inspect_decided, start, finish, key_eq, DiscoverySource,
}
use security_tool.Crawler.Steps.{read_page-keeps, record_requests-keeps}
use security_tool.Crawler.Visited.{crawl_loop-cases}

abbrev pub key_of : DiscoveredEndpoint → Text × Text
key_of e = (e.method, e.path_template)

-- An endpoint of the persona, with the method and the path in their normal forms.
abbrev pub IsNormal : Text → DiscoveredEndpoint → Type 0
IsNormal persona e =
    (e.persona_id ≡ persona)
    × (upper e.method ≡ e.method)
    × (normalize_path e.path_template ≡ e.path_template)

abbrev IsKeyed : Text → Crawl → Type 0
IsKeyed persona s =
    (s.surface.persona_id ≡ persona)
    × (s.seen_templates ≡ map key_of s.surface.endpoints)
    × Distinct s.seen_templates
    × All (IsNormal persona) s.surface.endpoints

map-snoc :
    (es : List DiscoveredEndpoint) (e : DiscoveredEndpoint)
    → map key_of es ++ key_of e ∷ [] ≡ map key_of (es ++ e ∷ [])
map-snoc [] e = refl
map-snoc (d ∷ es) e = ap (λ (ks : List (Text × Text)). key_of d ∷ ks) (map-snoc es e)

template-IsKeyed :
    (persona m template url : Text) (source : DiscoverySource) (s : Crawl)
    → upper m ≡ m
    → normalize_path template ≡ template
    → IsKeyed persona s
    → IsKeyed persona (record_template m template url source s)
unfolding record_template
template-IsKeyed persona m template url source s a b (h, k, d, n) =
    elim (Bool-cases (contains s.seen_templates (m, template))) [
      | inl c ↦ rw c (h, k, d, n)
      | inr c ↦ rw c (
        h,
        ap (λ (ks : List (Text × Text)). ks ++ (m, template) ∷ []) k
            ∙ map-snoc s.surface.endpoints _,
        Distinct-snoc s.seen_templates (m, template) d c,
        All-snoc (IsNormal persona) s.surface.endpoints _ n (h, a, b),
      )
    ]

module _ (lib : Library) (c : PersonaCrawler) (persona : Text) where
  abbrev IsKept : Inspected → Type 0
  IsKept (skipped t) = IsKeyed persona t
  IsKept (loaded p t) = IsKeyed persona t

  open_page-IsKept :
      (url : Text) (v : Visit) (s : Crawl) → IsKeyed persona s → IsKept (open_page c lib url v s)
  open_page-IsKept url v s h = by_page v.page
    where
      asked : IsKeyed persona (record_requests lib c v.requests s)
      asked =
          record_requests-keeps lib c (IsKeyed persona) (template-IsKeyed persona) v.requests s h

      by_page : (o : Option Page) → IsKept (open_page c lib url (record v { page = o }) s)
      by_page none = asked
      by_page (some p) = asked

  inspect-IsKept :
      (browser : Crawl → Text → Visit) (url : Text) (s : Crawl) {i : Inspected}
      → inspect lib c browser url s ≡ ok i
      → IsKeyed persona s
      → IsKept i
  unfolding inspect
  inspect-IsKept browser url s e h = elim (Bool-cases (contains s.visited url)) [
    | inl k ↦ subst IsKept (ok_inj (rw k at e)) h
    | inr k ↦
        let (d, a, b) =
          >>=-eq-ok (evaluate lib c.scope_guard (codes "GET") url)
            (inspect_decided c lib url (browser s url) s) (rw k at e) in
        elim (Bool-cases (is_allowed d)) [
          | inr n ↦ subst IsKept (ok_inj (rw n at b)) h
          | inl y ↦
              let (verdict, f, g) =
                >>=-eq-ok (check lib c.destructive_guard (codes "GET") url [])
                  (inspect_checked c lib url (browser s url) s) (rw y at b) in
              elim (Bool-cases verdict.is_suspect) [
                | inl v ↦ subst IsKept (ok_inj (rw v at g)) h
                | inr v ↦
                    subst IsKept (ok_inj (rw v at g)) (open_page-IsKept url (browser s url) s h)
              ]
        ]
  ]

  crawl_loop-IsKeyed :
      (browser : Crawl → Text → Visit) (left : ℕ) (queue : List Text) (s : Crawl) {t : Crawl}
      → crawl_loop lib c browser left queue s ≡ ok t
      → IsKeyed persona s
      → IsKeyed persona t
  unfolding crawl_loop
  crawl_loop-IsKeyed browser zero queue s e h = subst (IsKeyed persona) (ok_inj e) h
  crawl_loop-IsKeyed browser (suc left) [] s e h = subst (IsKeyed persona) (ok_inj e) h
  crawl_loop-IsKeyed browser (suc left) (url ∷ queue) s e h =
      elim (crawl_loop-cases lib c browser left url queue s e) [
        | inl (u, k, y) ↦
            crawl_loop-IsKeyed browser (suc left) queue u y (inspect-IsKept browser url s k h)
        | inr (p, u, k, y) ↦
            let (next, x, z) =
              >>=-eq-ok (read_page lib c url p queue u)
                (λ (next : List Text × Crawl). crawl_loop lib c browser left next.0 next.1) y in
            crawl_loop-IsKeyed browser left next.0 next.1 z (
              read_page-keeps lib c (IsKeyed persona) (template-IsKeyed persona) url p queue u x
                (inspect-IsKept browser url s k h))
      ]

-- A crawl that ends without an exception gives a surface map without two endpoints of one method
-- and path template; every endpoint is of the crawl's persona, and its method and its template are
-- in their normal forms.
pub crawl-endpoints :
    (lib : Library) (c : PersonaCrawler) (browser : Crawl → Text → Visit)
    (root_url persona_id : Text) (t : Crawl)
    → crawl lib c browser root_url persona_id ≡ ok t
    → Distinct (map key_of t.surface.endpoints) × All (IsNormal persona_id) t.surface.endpoints
unfolding crawl
crawl-endpoints lib c browser root_url persona_id t e =
    let (s, a, b) =
      >>=-eq-ok (crawl_loop lib c browser c.max_pages (root_url ∷ []) (start root_url persona_id))
        (λ s. ok (finish s)) e in
    let (h, k, d, n) =
      crawl_loop-IsKeyed lib c persona_id browser c.max_pages (root_url ∷ [])
        (start root_url persona_id) a (refl, refl, tt, tt) in
    rw (← ok_inj b) (subst Distinct k d, n)

-- The surface of a crawl is the persona's.
pub crawl-persona_id :
    (lib : Library) (c : PersonaCrawler) (browser : Crawl → Text → Visit)
    (root_url persona_id : Text) (t : Crawl)
    → crawl lib c browser root_url persona_id ≡ ok t
    → t.surface.persona_id ≡ persona_id
unfolding crawl
crawl-persona_id lib c browser root_url persona_id t e =
    let (s, a, b) =
      >>=-eq-ok (crawl_loop lib c browser c.max_pages (root_url ∷ []) (start root_url persona_id))
        (λ s. ok (finish s)) e in
    let (h, k, d, n) =
      crawl_loop-IsKeyed lib c persona_id browser c.max_pages (root_url ∷ [])
        (start root_url persona_id) a (refl, refl, tt, tt) in
    rw (← ok_inj b) h
