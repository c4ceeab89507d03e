-- ===== src/Crawler/Tests.antt =====
-- The crawl of a small site: a start page with two links to one template and one to a logout.
use security_tool.Prelude.{
  ◌≡◌, refl, true, false, Distinct, All, length, ◌≤◌, [], ◌∷◌, map, some, Text, codes, Outcome, ok,
  raise, text_beq, text_eq, contains, any, find, filter, lower, upper, split_once, strip_left,
  strip_right, starts_with, or_text, join, split, if◌then◌else◌, ◌==◌,
}
use security_tool.Url.{Library, Fault, urlsplit, hostname, after_last}
use security_tool.Scope.{
  standard_methods, evaluate, evaluate_at, host_matches, decide_path, first_match, decide_exclude,
  decide_include, decide_method, decide_named, decide_listed, allowed_methods, covers, normal_host,
}
use security_tool.Scope.Pattern.{search_from, search_ignore_case, match_here, lits}
use security_tool.Scope.Destructive.{new_destructive_guard, check, check_text, haystack_of, matches}
use security_tool.SurfaceMapper.{normalize_path, normalize_segment, looks_like_id}
use security_tool.Crawler.{
  PersonaCrawler, Crawl, Visit, Page, crawl, crawl_loop, inspect, read_page, record_endpoint,
  record_template, record_requests, record_network_request, record_forms, extract_forms,
  extract_same_origin_links, follow_links, start, key_eq,
}
use security_tool.Crawler.Visited.{IsSafe, crawl-IsWithin}
use security_tool.Crawler.Endpoints.{key_of, IsNormal, crawl-endpoints}

abbrev simple_library : Library
simple_library = record {
  search = λ p s. some (starts_with s p);
  netloc_valid = λ s. true;
  alnum = λ c. false;
}

abbrev crawler : PersonaCrawler
crawler = record {
  scope_guard = record {
    allowed_hosts = codes "a.test" ∷ [];
    rules = [];
    target_ownership_verified = true;
    default_allowed_methods = standard_methods;
  };
  destructive_guard = new_destructive_guard false [];
  max_pages = 2;
}

abbrev home : Text
home = codes "https://a.test/"

abbrev home_page : Page
home_page = record {
  hrefs = codes "https://a.test/u/1" ∷ codes "https://a.test/logout" ∷ codes "https://b.test/" ∷ [];
  forms = [];
  late_requests = [];
}

abbrev empty_page : Page
empty_page = record { hrefs = []; forms = []; late_requests = [] }

abbrev browser : Crawl → Text → Visit
browser s url = record {
  requests = [];
  page = some (if url == home then home_page else empty_page);
}

abbrev or_start : Outcome Fault Crawl → Crawl
or_start (ok t) = t
or_start (raise f) = start home (codes "bob")

abbrev crawled : Crawl
crawled = or_start (crawl simple_library crawler browser home (codes "bob"))

templates :
    map (λ e. e.path_template) crawled.surface.endpoints
    ≡ codes "/" ∷ codes "/logout" ∷ codes "/u/{id}" ∷ []
unfolding crawl crawl_loop inspect read_page record_endpoint record_template record_requests
    record_network_request record_forms extract_forms extract_same_origin_links follow_links
    normalize_path normalize_segment looks_like_id join split evaluate urlsplit evaluate_at any
    host_matches hostname decide_path first_match decide_exclude decide_include decide_method
    decide_named find decide_listed allowed_methods text_beq upper or_text filter lower split_once
    contains check check_text haystack_of matches search_from search_ignore_case match_here
    strip_left strip_right covers after_last normal_host new_destructive_guard lits
templates = refl

crawls : crawl simple_library crawler browser home (codes "bob") ≡ ok crawled
unfolding crawl crawl_loop inspect read_page record_endpoint record_template record_requests
    record_network_request record_forms extract_forms extract_same_origin_links follow_links
    normalize_path normalize_segment looks_like_id join split evaluate urlsplit evaluate_at any
    host_matches hostname decide_path first_match decide_exclude decide_include decide_method
    decide_named find decide_listed allowed_methods text_beq upper or_text filter lower split_once
    contains check check_text haystack_of matches search_from search_ignore_case match_here
    strip_left strip_right covers after_last normal_host new_destructive_guard lits
crawls = refl

crawl-IsWithin_example :
    Distinct crawled.visited
    × All (IsSafe simple_library crawler) crawled.visited
    × (length crawled.visited ≤ crawler.max_pages)
    × (crawled.surface.pages_visited ≡ length crawled.visited)
crawl-IsWithin_example =
    crawl-IsWithin simple_library crawler browser home (codes "bob") crawled crawls

crawl-endpoints_example :
    Distinct (map key_of crawled.surface.endpoints)
    × All (IsNormal (codes "bob")) crawled.surface.endpoints
crawl-endpoints_example =
    crawl-endpoints simple_library crawler browser home (codes "bob") crawled crawls
