-- ===== src/Crawler.antt =====
-- packages/crawler/src/sentinel_crawler/crawler.py and models.py: the crawl of one persona.
-- The browser is a parameter: what opening a page gives, from the state of the crawl so far.
pub mod Steps
pub mod Visited
pub mod Endpoints
mod Tests
use security_tool.Prelude.{
  ℕ, zero, suc, ◌-◌, Bool, true, false, not, ◌&&◌, ◌||◌, List, [], ◌∷◌, ◌++◌, Option, none, some,
  Text, codes, ◌==◌, text_eq, text_beq_iff, Equality, arith, ap, ◌≡◌, ◌↔◌, upper, contains, length,
  or_text, split_once, if◌then◌else◌, Outcome, ok, raise, ◌>>=◌,
}
use security_tool.Url.{Library, Fault, urlsplit}
use security_tool.Scope.{ScopeGuard, Reason, ScopeDecision, is_allowed, evaluate}
use security_tool.Scope.Destructive.{DestructiveActionGuard, DestructiveCheck, check}
use security_tool.SurfaceMapper.{normalize_path}

pub data DiscoverySource : Type 0 where
  link form network : DiscoverySource

pub record DiscoveredEndpoint : Type 0 where
  pub method : Text
  pub url : Text
  pub path_template : Text
  pub source : DiscoverySource
  pub persona_id : Text

-- The notes of a crawl, as values.
pub data Note : Type 0 where
  out_of_scope : Text → Reason → Note
  suspected_destructive : Text → Note
  failed_to_load : Text → Note

pub record SurfaceMap : Type 0 where
  pub root_url : Text
  pub persona_id : Text
  pub endpoints : List DiscoveredEndpoint
  pub pages_visited : ℕ
  pub notes : List Note

-- The local variables of `crawl`, its queue aside.
pub record Crawl : Type 0 where
  pub surface : SurfaceMap
  pub seen_templates : List (Text × Text)
  pub visited : List Text

pub record NetworkRequest : Type 0 where
  pub resource_type : Text
  pub method : Text
  pub url : Text

pub record RawForm : Type 0 where
  pub action : Text
  pub method : Text

-- A page that loaded: its links, its forms, what it requests while they are read.
pub record Page : Type 0 where
  pub hrefs : List Text
  pub forms : List RawForm
  pub late_requests : List NetworkRequest

-- What `page.goto` does: requests are seen whether the page loads or not.
pub record Visit : Type 0 where
  pub requests : List NetworkRequest
  pub page : Option Page

pub record PersonaCrawler : Type 0 where
  pub scope_guard : ScopeGuard
  pub destructive_guard : DestructiveActionGuard
  pub max_pages : ℕ

abbrev pub interesting_resource_types : List Text
interesting_resource_types = codes "xhr" ∷ codes "fetch" ∷ []

pub key_beq_iff : (a b : Text × Text) → ((a.0 == b.0 && a.1 == b.1) ≡ true) ↔ (a ≡ b)
key_beq_iff (a, x) (b, y) = (
  λ h.
      let p : a ≡ b = (text_beq_iff a b).0 (ground arith) in
      let q : x ≡ y = (text_beq_iff x y).0 (ground arith) in cc,
  λ h.
      ground
        (arith, (text_beq_iff a b).1 (ap (λ k. k.0) h), (text_beq_iff x y).1 (ap (λ k. k.1) h)),
)

instance abbrev pub key_eq : Equality (Text × Text)
key_eq = record { same = λ a b. a.0 == b.0 && a.1 == b.1; same_iff = key_beq_iff }

abbrev pub add_note : Note → Crawl → Crawl
add_note n s = record s { surface = record s.surface { notes = s.surface.notes ++ n ∷ [] } }

-- The endpoint of a method and a template is recorded once.
unfoldable pub record_template : Text → Text → Text → DiscoverySource → Crawl → Crawl
unfolding contains
record_template m template url source s =
    if contains s.seen_templates (m, template) then s else record s {
      seen_templates = s.seen_templates ++ (m, template) ∷ [];
      surface = record s.surface {
        endpoints =
            s.surface.endpoints
            ++ record {
              method = m;
              url = url;
              path_template = template;
              source = source;
              persona_id = s.surface.persona_id;
            }
              ∷ [];
      };
    }

-- `_record_endpoint`
unfoldable pub record_endpoint :
    Library → Text → Text → DiscoverySource → Crawl → Outcome Fault Crawl
record_endpoint lib m url source s = urlsplit lib url >>= λ parts.
    ok (record_template (upper m) (normalize_path (or_text parts.path (codes "/"))) url source s)

abbrev or_state : Outcome Fault Crawl → Crawl → Crawl
or_state (ok t) s = t
or_state (raise f) s = s

abbrev scope_allows : Library → PersonaCrawler → Text → Text → Bool
scope_allows lib c m url = elim (evaluate lib c.scope_guard m url) [
  | ok d ↦ is_allowed d
  | raise f ↦ false
]

-- `_record_network_request`: what it raises ends the event handler and changes nothing.
unfoldable pub record_network_request : Library → PersonaCrawler → NetworkRequest → Crawl → Crawl
unfolding contains
record_network_request lib c r s =
    if not (contains interesting_resource_types r.resource_type)
    then s
    else if not (scope_allows lib c r.method r.url)
    then s
    else or_state (record_endpoint lib r.method r.url network s) s

unfoldable pub record_requests : Library → PersonaCrawler → List NetworkRequest → Crawl → Crawl
record_requests lib c [] s = s
record_requests lib c (r ∷ rs) s = record_requests lib c rs (record_network_request lib c r s)

abbrev is_http : Text → Bool
is_http scheme = scheme == codes "http" || scheme == codes "https"

abbrev same_origin : Library → Text → List Text → Outcome Fault (List Text)
same_origin lib origin [] = ok []
same_origin lib origin (h ∷ hs) = urlsplit lib h >>= λ parts. same_origin lib origin hs >>= λ rest.
    ok (
      if is_http parts.scheme && parts.netloc == origin then (split_once b'#' h).0 ∷ rest else rest)

-- `_extract_same_origin_links`
unfoldable pub extract_same_origin_links : Library → Text → List Text → Outcome Fault (List Text)
unfolding split_once
extract_same_origin_links lib root_url hrefs =
    urlsplit lib root_url >>= λ root. same_origin lib root.netloc hrefs

abbrev keep_forms : Library → Text → Text → List RawForm → Outcome Fault (List (Text × Text))
keep_forms lib root_url origin [] = ok []
keep_forms lib root_url origin (f ∷ fs) =
    let action = or_text f.action root_url in
    urlsplit lib action >>= λ parts. keep_forms lib root_url origin fs >>= λ rest. ok (
      if not (parts.netloc == []) && not (parts.netloc == origin)
      then rest
      else (f.method, action) ∷ rest)

-- `_extract_forms`
unfoldable pub extract_forms : Library → Text → List RawForm → Outcome Fault (List (Text × Text))
extract_forms lib root_url forms =
    urlsplit lib root_url >>= λ root. keep_forms lib root_url root.netloc forms

unfoldable pub record_forms : Library → List (Text × Text) → Crawl → Outcome Fault Crawl
record_forms lib [] s = ok s
record_forms lib (f ∷ fs) s = record_endpoint lib f.0 f.1 form s >>= record_forms lib fs

-- The links of a page: those that are new and harmless join the queue.
unfoldable pub follow_links :
    Library → PersonaCrawler → List Text → List Text → Crawl → Outcome Fault (List Text × Crawl)
unfolding contains
follow_links lib c [] queue s = ok (queue, s)
follow_links lib c (l ∷ ls) queue s =
    if contains s.visited l || contains queue l
    then follow_links lib c ls queue s
    else check lib c.destructive_guard (codes "GET") l [] >>= λ verdict.
        if verdict.is_suspect
        then record_endpoint lib (codes "GET") l link s >>= follow_links lib c ls queue
        else follow_links lib c ls (queue ++ l ∷ []) s

abbrev pub record_found :
    Library
    → PersonaCrawler
    → Page
    → List Text
    → Crawl
    → List Text
    → List (Text × Text)
    → Outcome Fault (List Text × Crawl)
record_found lib c p queue s links forms =
    record_forms lib forms (record_requests lib c p.late_requests s)
    >>= follow_links lib c links queue

abbrev pub read_forms :
    Library
    → PersonaCrawler
    → Page
    → List Text
    → Crawl
    → List Text
    → Outcome Fault (List Text × Crawl)
read_forms lib c p queue s links =
    extract_forms lib s.surface.root_url p.forms >>= record_found lib c p queue s links

abbrev pub read_links :
    Library → PersonaCrawler → Page → List Text → Crawl → Outcome Fault (List Text × Crawl)
read_links lib c p queue s =
    extract_same_origin_links lib s.surface.root_url p.hrefs >>= read_forms lib c p queue s

-- A page that loaded: it is recorded with its forms, and its links are followed.
unfoldable pub read_page :
    Library → PersonaCrawler → Text → Page → List Text → Crawl → Outcome Fault (List Text × Crawl)
read_page lib c url p queue s =
    record_endpoint lib (codes "GET") url link (record s { visited = url ∷ s.visited })
    >>= read_links lib c p queue

-- One URL of the queue: it is passed over, or its page is read.
pub data Inspected : Type 0 where
  skipped : Crawl → Inspected
  loaded : Page → Crawl → Inspected

abbrev pub open_page : PersonaCrawler → Library → Text → Visit → Crawl → Inspected
open_page c lib url v s = elim v.page [
  | none ↦ skipped (add_note (failed_to_load url) (record_requests lib c v.requests s))
  | some p ↦ loaded p (record_requests lib c v.requests s)
]

abbrev pub inspect_checked :
    PersonaCrawler → Library → Text → Visit → Crawl → DestructiveCheck → Outcome Fault Inspected
inspect_checked c lib url v s verdict =
    if verdict.is_suspect
    then ok (skipped (add_note (suspected_destructive url) s))
    else ok (open_page c lib url v s)

abbrev pub inspect_decided :
    PersonaCrawler → Library → Text → Visit → Crawl → ScopeDecision → Outcome Fault Inspected
inspect_decided c lib url v s d =
    if not (is_allowed d)
    then ok (skipped (add_note (out_of_scope url d.reason) s))
    else check lib c.destructive_guard (codes "GET") url [] >>= inspect_checked c lib url v s

unfoldable pub inspect :
    Library → PersonaCrawler → (Crawl → Text → Visit) → Text → Crawl → Outcome Fault Inspected
unfolding contains
inspect lib c browser url s =
    if contains s.visited url
    then ok (skipped s)
    else evaluate lib c.scope_guard (codes "GET") url
      >>= inspect_decided c lib url (browser s url) s

-- `while queue and len(visited) < max_pages`, over the pages that are left and the queue.
unfoldable pub crawl_loop :
    Library → PersonaCrawler → (Crawl → Text → Visit) → ℕ → List Text → Crawl → Outcome Fault Crawl
crawl_loop lib c browser zero queue s = ok s
crawl_loop lib c browser (suc left) [] s = ok s
crawl_loop lib c browser (suc left) (url ∷ queue) s = elim (inspect lib c browser url s) [
  | raise f ↦ raise f
  | ok (skipped t) ↦ crawl_loop lib c browser (suc left) queue t
  | ok (loaded p t) ↦ read_page lib c url p queue t >>= λ (next : List Text × Crawl).
      crawl_loop lib c browser left next.0 next.1
]

abbrev pub start : Text → Text → Crawl
start root_url persona_id = record {
  surface = record {
    root_url = root_url;
    persona_id = persona_id;
    endpoints = [];
    pages_visited = 0;
    notes = [];
  };
  seen_templates = [];
  visited = [];
}

abbrev pub finish : Crawl → Crawl
finish s = record s { surface = record s.surface { pages_visited = length s.visited } }

-- `PersonaCrawler.crawl`
unfoldable pub crawl :
    Library → PersonaCrawler → (Crawl → Text → Visit) → Text → Text → Outcome Fault Crawl
crawl lib c browser root_url persona_id =
    crawl_loop lib c browser c.max_pages (root_url ∷ []) (start root_url persona_id) >>= λ s.
    ok (finish s)
