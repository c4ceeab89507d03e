-- ===== src/Runner/LoginTests.antt =====
-- The logins, the crawls and the rows of a run.
use security_tool.Prelude.{
  text_eq, true, false, map, Distinct, All, ◌≡◌, refl, sym, subst, ◌∙◌, ◌∙◌, List, [], ◌∷◌, ◌++◌,
  none, some, Text, codes, text_beq, any, find, filter, contains, upper, or_text, lower, split_once,
  strip_left, strip_right, ends_with, ok,
}
use security_tool.Url.{urlsplit, hostname, after_last}
use security_tool.Crypto.{encrypt}
use security_tool.Crypto.Sample.{cipher, cipher-IsCipher}
use security_tool.Targets.{create_target}
use security_tool.Scope.{
  new_guard, evaluate, evaluate_at, host_matches, decide_path, first_match, decide_exclude,
  decide_include, decide_method, decide_named, decide_listed, allowed_methods, covers, normal_host,
}
use security_tool.Scope.Pattern.{search_from, search_ignore_case, match_here, lits}
use security_tool.Scope.Destructive.{new_destructive_guard, check, check_text, haystack_of, matches}
use security_tool.Personas.Login.{PersonaAuthResult, no_secret_step}
use security_tool.Substrate.{build_scope_guard}
use security_tool.Runner.Logins.{
  PersonaRow, Logins, log_in, run_auth_establishing, login_loop, record_result, logged_in,
  no_logins, set_session, session_for, run_crawling, crawl_as, crawl_personas, new_crawler,
}
use security_tool.Runner.Kept.{ids, IsBacked, count_available}
use security_tool.Runner.Sessions.{logged, expected, Returns, run_auth_establishing-IsBacked}
use security_tool.Runner.Details.{Details, logins, crawls, configured_personas, facts_of}
use security_tool.Runner.{crawled_as}
use security_tool.Runner.Crawls.{whose}
use security_tool.Runner.Refined.{crawls-refine}
use security_tool.Recon.Tools.{World, http_error}
use security_tool.Crawler.{
  Crawl, Visit, SurfaceMap, failed_to_load, crawl, crawl_loop, inspect, record_requests,
}
use security_tool.Runner.Sample.{
  shop, data_key, acme, ann, bob, simple_library, clients, engine, root_url, opens, bob_result,
  bob_in, ann_result, ann_in,
}
use security_tool.Crawler.{DiscoveredEndpoint, link}
use security_tool.SurfaceAdapter.{Rows}

abbrev both : List PersonaRow
both = ann ∷ bob ∷ []

both-Distinct : Distinct (ids clients both)
unfolding contains text_beq
both-Distinct = (refl, (refl, tt))

both-Returns : All (Returns clients engine data_key root_url) both
both-Returns = ((ann_result, ann_in), ((bob_result, bob_in), tt))

run_auth_establishing-IsBacked_example :
    (s : Logins) × (run_auth_establishing clients (codes "master") acme shop [] none both ≡ ok s)
    × All (IsBacked clients data_key s.in_memory_sessions) s.rows
    × (s.personas_available ≡ count_available s.rows)
    × (map (logged clients) s.rows ≡ map (expected clients engine data_key root_url) both)
run_auth_establishing-IsBacked_example =
    run_auth_establishing-IsBacked clients cipher-IsCipher data_key (codes "master") acme shop []
      none both refl opens both-Distinct both-Returns

abbrev no_page : Crawl → Text → Visit
no_page s url = record { requests = []; page = none }

abbrev world : World
world = record {
  which = λ b. false;
  process = λ b args stdin. none;
  loads = λ s. none;
  resolve = λ host. codes "10.0.0.1" ∷ [];
  fetch = λ url. http_error (codes "refused");
  title_of = λ s. none;
  token_hex = codes "ab";
}

abbrev details : Details
details = record {
  target = shop;
  org = acme;
  scope_rules = [];
  personas = both;
  rows = record { assets = []; endpoints = [] };
  scan_id = 3;
  kms_master_key = codes "master";
  lib = simple_library;
  world = world;
  clients = clients;
  browser = λ id state. no_page;
  uuid = λ n. n;
  flush = λ n. ok tt;
  shown = record {
    adapter_fault = λ e. [];
    url_fault = λ e. [];
    merge_fault = λ e. [];
    note = λ n. [];
  };
}

abbrev surface : Text → SurfaceMap
surface id = record {
  root_url = root_url;
  persona_id = id;
  endpoints = [];
  pages_visited = 0;
  notes = failed_to_load root_url ∷ [];
}

abbrev surfaces : List SurfaceMap
surfaces = surface (codes "anonymous") ∷ surface (1 ∷ []) ∷ []

recipes : configured_personas both ≡ both
unfolding configured_personas filter
recipes = refl

abbrev logged_rows : Logins
logged_rows = record {
  rows =
      record ann {
        is_available = true;
        unavailable_reason = none;
        session_state_ciphertext = some (cipher.encrypt data_key [] (codes "state"));
        session_oracle = ann_result.session_oracle;
      }
      ∷ record bob { is_available = false; unavailable_reason = some no_secret_step }
      ∷ [];
  personas_available = 1;
  in_memory_sessions = (1 ∷ [], record { cookies = none }) ∷ [];
  degraded_reasons = [];
}

abbrev ann_logged : Logins
ann_logged =
    logged_in (1 ∷ []) ann ann_result (cipher.encrypt data_key [] (codes "state")) no_logins

ann_recorded : record_result clients data_key ann no_logins ann_result ≡ ok ann_logged
unfolding record_result encrypt
ann_recorded = refl

bob_recorded : record_result clients data_key bob ann_logged bob_result ≡ ok logged_rows
unfolding record_result set_session
bob_recorded = refl

loop_step :
    (row : PersonaRow) (rows : List PersonaRow) (r : PersonaAuthResult) (s t : Logins)
    → log_in clients engine data_key root_url row ≡ ok r
    → record_result clients data_key row s r ≡ ok t
    → login_loop clients engine data_key root_url (row ∷ rows) s
      ≡ login_loop clients engine data_key root_url rows t
unfolding login_loop
loop_step row rows r s t a b = rw (a, b) refl

loop_ends : login_loop clients engine data_key root_url [] logged_rows ≡ ok logged_rows
unfolding login_loop
loop_ends = refl

loop_runs : login_loop clients engine data_key root_url both no_logins ≡ ok logged_rows
loop_runs =
    loop_step ann (bob ∷ []) ann_result no_logins ann_logged ann_in ann_recorded
    ∙ loop_step bob [] bob_result ann_logged logged_rows bob_in bob_recorded
    ∙ loop_ends

logins_run : run_auth_establishing clients (codes "master") acme shop [] none both ≡ ok logged_rows
unfolding run_auth_establishing
logins_run = rw opens loop_runs

logs_in_both : logins details ≡ ok logged_rows
unfolding logins
logs_in_both =
    subst
      (λ rows.
        run_auth_establishing clients (codes "master") acme shop [] none rows ≡ ok logged_rows)
      (sym recipes) logins_run

crawls_both : crawls details ≡ ok surfaces
unfolding crawls run_crawling crawl_as crawl_personas crawl crawl_loop inspect record_requests
    session_for new_crawler build_scope_guard evaluate urlsplit evaluate_at any host_matches
    hostname decide_path first_match decide_exclude decide_include decide_method decide_named find
    decide_listed allowed_methods upper or_text filter lower split_once contains check check_text
    haystack_of matches search_from search_ignore_case match_here strip_left strip_right covers
    after_last normal_host new_destructive_guard lits new_guard create_target ends_with text_beq
crawls_both = rw logs_in_both refl

crawls-refine_example :
    ((facts_of details).login ≡ ok tt) × (map whose surfaces ≡ crawled_as (facts_of details))
crawls-refine_example =
    crawls-refine details cipher-IsCipher data_key surfaces refl refl opens
      (subst (λ rows. Distinct (ids clients rows)) (sym recipes) both-Distinct)
      (subst (All (Returns clients engine data_key root_url)) (sym recipes) both-Returns)
      crawls_both

abbrev seen : Text → Text → DiscoveredEndpoint
seen path persona = record {
  method = codes "GET";
  url = root_url ++ path;
  path_template = 47 ∷ path;
  source = link;
  persona_id = persona;
}

abbrev full_surface : Text → SurfaceMap
full_surface id = record (surface id) { endpoints = seen [] id ∷ seen (codes "x") id ∷ [] }

abbrev no_rows : Rows
no_rows = record { assets = []; endpoints = [] }
