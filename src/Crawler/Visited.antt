-- ===== src/Crawler/Visited.antt =====
-- The pages that a crawl loads.
use security_tool.Prelude.{
  ℕ, zero, suc, ◌+◌, ◌≤◌, true, false, ◌≡◌, refl, ap, subst, ◌∙◌, List, [], ◌∷◌, Option, none, some,
  Text, codes, arith, Bool-cases, inl, inr, ok, raise, ◌>>=◌, >>=-eq-ok, ok_inj, ◌⊎◌, contains,
  text_eq, length, Distinct, All, upper,
}
use security_tool.Url.{Library, Fault}
use security_tool.Scope.{ScopeDecision, is_allowed, evaluate}
use security_tool.Scope.Destructive.{DestructiveCheck, check}
use security_tool.SurfaceMapper.{normalize_path}
use security_tool.Crawler.{
  Crawl, PersonaCrawler, Page, Visit, Inspected, skipped, loaded, inspect, read_page, crawl_loop,
  crawl, record_requests, record_template, finish, open_page, inspect_checked, inspect_decided,
  start, DiscoverySource, key_eq,
}
use security_tool.Crawler.Steps.{read_page-keeps, record_requests-keeps}

raise_not_ok : {f : Fault} {t : Crawl} → raise f ≡ ok t → ⊥
raise_not_ok h = cc

module _ (lib : Library) (c : PersonaCrawler) where
  -- Both guards let the crawler open the page.
  abbrev pub IsSafe : Text → Type 0
  IsSafe url =
      ((d : ScopeDecision) × (evaluate lib c.scope_guard (codes "GET") url ≡ ok d)
        × (is_allowed d ≡ true))
      × ((v : DestructiveCheck) × (check lib c.destructive_guard (codes "GET") url [] ≡ ok v)
          × (v.is_suspect ≡ false))

  abbrev HasVisited : List Text → Crawl → Type 0
  HasVisited v s = s.visited ≡ v

  template-HasVisited :
      (v : List Text) (m template url : Text) (source : DiscoverySource) (s : Crawl)
      → upper m ≡ m
      → normalize_path template ≡ template
      → HasVisited v s
      → HasVisited v (record_template m template url source s)
  unfolding record_template
  template-HasVisited v m template url source s a b h =
      elim (Bool-cases (contains s.seen_templates (m, template))) [
        | inl k ↦ rw k h
        | inr k ↦ rw k h
      ]

  read_page-visited :
      (url : Text) (p : Page) (queue : List Text) (s : Crawl) {t : List Text × Crawl}
      → read_page lib c url p queue s ≡ ok t
      → t.1.visited ≡ url ∷ s.visited
  read_page-visited url p queue s e =
      let v = url ∷ s.visited in
      read_page-keeps lib c (HasVisited v) (template-HasVisited v) url p queue s e refl

  abbrev IsInspected : Crawl → Text → Inspected → Type 0
  IsInspected s url (skipped t) = t.visited ≡ s.visited
  IsInspected s url (loaded p t) =
      (t.visited ≡ s.visited) × (contains s.visited url ≡ false) × IsSafe url

  open_page-IsInspected :
      (url : Text) (v : Visit) (s : Crawl)
      → contains s.visited url ≡ false
      → IsSafe url
      → IsInspected s url (open_page c lib url v s)
  open_page-IsInspected url v s n safe = by_page v.page
    where
      same : (record_requests lib c v.requests s).visited ≡ s.visited
      same =
          record_requests-keeps lib c (HasVisited s.visited) (template-HasVisited s.visited)
            v.requests s refl

      by_page :
          (o : Option Page) → IsInspected s url (open_page c lib url (record v { page = o }) s)
      by_page none = same
      by_page (some p) = (same, n, safe)

  inspect-IsInspected :
      (browser : Crawl → Text → Visit) (url : Text) (s : Crawl) {i : Inspected}
      → inspect lib c browser url s ≡ ok i
      → IsInspected s url i
  unfolding inspect
  inspect-IsInspected browser url s {i} e = elim (Bool-cases (contains s.visited url)) [
    | inl k ↦ subst (IsInspected s url) (ok_inj (rw k at e)) refl
    | inr k ↦
        let (d, a, b) =
          >>=-eq-ok (evaluate lib c.scope_guard (codes "GET") url)
            (inspect_decided c lib url (browser s url) s) (rw k at e) in
        elim (Bool-cases (is_allowed d)) [
          | inr n ↦ subst (IsInspected s url) (ok_inj (rw n at b)) refl
          | inl y ↦
              let (verdict, f, g) =
                >>=-eq-ok (check lib c.destructive_guard (codes "GET") url [])
                  (inspect_checked c lib url (browser s url) s) (rw y at b) in
              elim (Bool-cases verdict.is_suspect) [
                | inl v ↦ subst (IsInspected s url) (ok_inj (rw v at g)) refl
                | inr v ↦
                    subst (IsInspected s url) (ok_inj (rw v at g))
                      (open_page-IsInspected url (browser s url) s k ((d, a, y), (verdict, f, v)))
              ]
        ]
  ]

  -- Within the page limit, every page once, and only where both guards allow it.
  abbrev IsWithin : ℕ → Crawl → Type 0
  IsWithin left s =
      Distinct s.visited × All IsSafe s.visited × (length s.visited + left ≤ c.max_pages)

  pub crawl_loop-cases :
      (browser : Crawl → Text → Visit) (left : ℕ) (url : Text) (queue : List Text) (s : Crawl)
      {t : Crawl}
      → crawl_loop lib c browser (suc left) (url ∷ queue) s ≡ ok t
      → ((u : Crawl) × (inspect lib c browser url s ≡ ok (skipped u))
          × (crawl_loop lib c browser (suc left) queue u ≡ ok t))
        ⊎ ((p : Page) × (u : Crawl) × (inspect lib c browser url s ≡ ok (loaded p u))
            × ((read_page lib c url p queue u >>= λ (next : List Text × Crawl).
                  crawl_loop lib c browser left next.0 next.1)
                ≡ ok t))
  unfolding crawl_loop
  crawl_loop-cases browser left url queue s {t} =
      elim (inspect lib c browser url s)
        as (λ o.
          (elim o [
            | raise f ↦ raise f
            | ok (skipped u) ↦ crawl_loop lib c browser (suc left) queue u
            | ok (loaded p u) ↦ read_page lib c url p queue u >>= λ (next : List Text × Crawl).
                crawl_loop lib c browser left next.0 next.1
          ])
            ≡ ok t
          → ((u : Crawl) × (o ≡ ok (skipped u))
              × (crawl_loop lib c browser (suc left) queue u ≡ ok t))
            ⊎ ((p : Page) × (u : Crawl) × (o ≡ ok (loaded p u))
                × ((read_page lib c url p queue u >>= λ (next : List Text × Crawl).
                      crawl_loop lib c browser left next.0 next.1)
                    ≡ ok t))) [
                      | raise f ↦ λ e. absurd (raise_not_ok e)
                      | ok (skipped u) ↦ λ e. inl (u, refl, e)
                      | ok (loaded p u) ↦ λ e. inr (p, u, refl, e)
                    ]

  crawl_loop-IsWithin :
      (browser : Crawl → Text → Visit) (left : ℕ) (queue : List Text) (s : Crawl) {t : Crawl}
      → crawl_loop lib c browser left queue s ≡ ok t
      → IsWithin left s
      → IsWithin 0 t
  unfolding crawl_loop
  crawl_loop-IsWithin browser zero queue s e h = subst (IsWithin 0) (ok_inj e) h
  crawl_loop-IsWithin browser (suc left) [] s e (d, a, b) =
      subst (IsWithin 0) (ok_inj e) (d, a, omega (arith, b))
  crawl_loop-IsWithin browser (suc left) (url ∷ queue) s e h =
      elim (crawl_loop-cases browser left url queue s e) [
        | inl (u, k, y) ↦
            crawl_loop-IsWithin browser (suc left) queue u y
              (rw (inspect-IsInspected browser url s k) h)
        | inr (p, u, k, y) ↦
            let (same, n, safe) = inspect-IsInspected browser url s k in
            let (next, x, z) =
              >>=-eq-ok (read_page lib c url p queue u)
                (λ (next : List Text × Crawl). crawl_loop lib c browser left next.0 next.1) y in
            let v : next.1.visited ≡ url ∷ s.visited =
              read_page-visited url p queue u x ∙ ap (λ (w : List Text). url ∷ w) same in
            crawl_loop-IsWithin browser left next.0 next.1 z
              (rw v ((n, h.0), (safe, h.1), omega (arith, h.2)))
      ]

-- A crawl that ends without an exception has loaded at most `max_pages` pages, none of them twice,
-- each of them a URL that the scope guard allows for GET and that the destructive-action guard does
-- not suspect, and `pages_visited` is their number.
pub crawl-IsWithin :
    (lib : Library) (c : PersonaCrawler) (browser : Crawl → Text → Visit)
    (root_url persona_id : Text) (t : Crawl)
    → crawl lib c browser root_url persona_id ≡ ok t
    → Distinct t.visited
      × All (IsSafe lib c) t.visited
      × (length t.visited ≤ c.max_pages)
      × (t.surface.pages_visited ≡ length t.visited)
unfolding crawl
crawl-IsWithin lib c browser root_url persona_id t e =
    let (s, a, b) =
      >>=-eq-ok (crawl_loop lib c browser c.max_pages (root_url ∷ []) (start root_url persona_id))
        (λ s. ok (finish s)) e in
    let (d, safe, n) =
      crawl_loop-IsWithin lib c browser c.max_pages (root_url ∷ []) (start root_url persona_id) a
        (tt, tt, omega arith) in
    rw (← ok_inj b) (d, safe, omega (arith, n), refl)
