-- ===== src/Substrate/Tests.antt =====
-- A request below the root domain of a verified target.
use security_tool.Prelude.{
  ℕ, true, false, ◌≡◌, ◌≢◌, refl, [], none, some, Text, codes, Memᴰ, upper, or_text, starts_with,
  ok, text_beq, any, find, filter, lower, split_once, strip_left, contains, strip_right, ends_with,
}
use security_tool.Url.{Library, SplitResult, urlsplit, hostname, after_last}
use security_tool.Scope.{
  evaluate, evaluate_at, host_matches, decide_path, first_match, decide_exclude, decide_include,
  decide_method, decide_named, decide_listed, allowed_methods, covers, normal_host, new_guard,
}
use security_tool.Scope.Pattern.{search_from, search_ignore_case, match_here, lits}
use security_tool.Scope.Destructive.{new_destructive_guard, check, check_text, haystack_of, matches}
use security_tool.Transcript.{text}
use security_tool.Engine.{
  HttpEngine, Attempt, answered, request, transmit, Event, sent, anonymous_session, request_headers,
  send_loop, max_attempts, admit, if_admitted,
}
use security_tool.Targets.{Target, create_target}
use security_tool.Substrate.{build_scope_guard, build_http_engine}
use security_tool.Substrate.Reach.{IsUnder, request-IsUnder}

abbrev simple_library : Library
simple_library = record {
  search = λ p s. some (starts_with s p);
  netloc_valid = λ s. true;
  alnum = λ c. false;
}

abbrev shop : Target
shop = record (create_target 1 7 (codes "b.t") (codes "Shop") true) { ownership_verified = true }

abbrev engine : HttpEngine
engine = build_http_engine (build_scope_guard shop [])

abbrev page : Text
page = codes "https://a.b.t/"

abbrev client : ℕ → Attempt
client k = answered record { status_code = 200; headers = []; body = some (text (codes "hi")) }

abbrev the_request : Event
the_request = sent (codes "GET") page (request_headers engine anonymous_session [])

admits_page : admit simple_library engine (codes "GET") page [] false ≡ ok tt
unfolding build_scope_guard build_http_engine new_guard create_target admit evaluate urlsplit
    evaluate_at any host_matches hostname decide_path first_match decide_exclude decide_include
    decide_method decide_named find decide_listed allowed_methods text_beq upper or_text filter
    lower split_once contains check check_text haystack_of matches search_from search_ignore_case
    match_here strip_left strip_right covers after_last normal_host new_destructive_guard lits
    ends_with
admits_page = refl

transmits_it :
    Memᴰ the_request (transmit engine client anonymous_session (codes "GET") page [] none).1
unfolding transmit send_loop max_attempts text_beq
transmits_it = Memᴰ.tail (Memᴰ.head refl)

sends_it :
    Memᴰ the_request
      (request simple_library engine client anonymous_session (codes "GET") page [] none [] false).1
unfolding request upper
sends_it = rw (admits_page, if_admitted) transmits_it

shop_named : normal_host shop.root_domain ≢ []
unfolding normal_host lower strip_right create_target
shop_named e = cc

shop_plain : starts_with (normal_host shop.root_domain) (codes "*.") ≡ false
unfolding normal_host lower strip_right starts_with create_target
shop_plain = refl

request-IsUnder_example :
    (shop.ownership_verified ≡ true)
    × ((parts : SplitResult) × (urlsplit simple_library page ≡ ok parts)
        × IsUnder (normal_host shop.root_domain) (normal_host (hostname parts)))
request-IsUnder_example =
    request-IsUnder simple_library shop [] client anonymous_session (codes "GET") page [] none []
      false the_request shop_named shop_plain sends_it refl
