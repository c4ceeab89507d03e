-- ===== src/Engine/Tests.antt =====
-- A request of one persona at a small target, and the theorems beside this file at it.
use security_tool.Prelude.{
  raise, ℕ, zero, suc, true, false, ◌≡◌, refl, [], ◌∷◌, none, some, Text, codes, Memᴰ, upper,
  or_text, starts_with, ok, if◌then◌else◌, contains, text_eq, text_beq, any, find, filter, lower,
  split_once, strip_left, strip_right,
}
use security_tool.Url.{Library, SplitResult, urlsplit, hostname, after_last}
use security_tool.Scope.{
  standard_methods, evaluate, evaluate_at, host_matches, decide_path, first_match, decide_exclude,
  decide_include, decide_method, decide_named, decide_listed, allowed_methods, covers, normal_host,
}
use security_tool.Scope.Pattern.{search_from, search_ignore_case, match_here}
use security_tool.Scope.Allowed.{IsInScope}
use security_tool.Scope.Destructive.{new_destructive_guard, check, check_text, haystack_of, matches}
use security_tool.Transcript.{Headers, RecordedResponse, text}
use security_tool.Engine.{
  HttpEngine, SessionState, Attempt, Event, answered, timed_out, unreadable, client_error, acquired,
  request, transmit, sent, request_headers, idempotent_methods, send_loop, max_attempts, admit,
  if_admitted,
}
use security_tool.Engine.Attempts.{count, is_sent, transmit-sends, IsTransmitted}
use security_tool.Engine.Guarded.{IsHarmless, request-sent}

abbrev simple_library : Library
simple_library = record {
  search = λ p s. some (starts_with s p);
  netloc_valid = λ s. true;
  alnum = λ c. false;
}

abbrev engine : HttpEngine
engine = record {
  scope_guard = record {
    allowed_hosts = codes "acme.test" ∷ [];
    rules = [];
    target_ownership_verified = true;
    default_allowed_methods = standard_methods;
  };
  destructive_guard = new_destructive_guard false [];
  max_retries = 2;
  user_agent = codes "scanner";
}

abbrev alice : SessionState
alice = record {
  persona_id = codes "alice";
  cookies = (codes "sid", codes "1") ∷ (codes "t", codes "2") ∷ [];
  extra_headers = (codes "X-Role", codes "user") ∷ [];
}

abbrev answer : ℕ → RecordedResponse
answer n = record { status_code = n; headers = []; body = some (text (codes "hi")) }

-- A time-out, a rate limit, then an answer.
abbrev flaky : ℕ → Attempt
flaky zero = timed_out
flaky (suc zero) = answered (answer 503)
flaky (suc (suc n)) = answered (answer 200)

abbrev home : Text
home = codes "https://acme.test/"

abbrev alice_headers : Headers
alice_headers =
    (codes "User-Agent", codes "scanner")
    ∷ (codes "X-Role", codes "user")
    ∷ (codes "Cookie", codes "sid=1; t=2")
    ∷ []

alice_sends : request_headers engine alice [] ≡ alice_headers
unfolding request_headers text_beq
alice_sends = refl

flaky_run : count is_sent (transmit engine flaky alice (codes "GET") home [] none).1 ≡ 3
unfolding transmit send_loop max_attempts text_beq
flaky_run = refl

transmit-sends_example :
    IsTransmitted
      (suc (if contains idempotent_methods (codes "GET") then engine.max_retries else 0))
      (transmit engine flaky alice (codes "GET") home [] none)
transmit-sends_example = transmit-sends engine flaky alice (codes "GET") home [] none

-- A body that cannot be decoded leaves no transcript of the request that was sent.
abbrev garbled : ℕ → Attempt
garbled n = unreadable (codes "DecodingError")

garbled_run : transmit engine garbled alice (codes "GET") home [] none ≡ (
  raise (client_error (codes "DecodingError")),
  acquired ∷ sent (codes "GET") home (request_headers engine alice []) ∷ [],
)
unfolding transmit send_loop max_attempts text_beq
garbled_run = refl

abbrev the_request : Event
the_request = sent (codes "GET") home (request_headers engine alice [])

admits_home : admit simple_library engine (codes "GET") home [] false ≡ ok tt
unfolding admit evaluate urlsplit evaluate_at any host_matches hostname decide_path first_match
    decide_exclude decide_include decide_method decide_named find decide_listed allowed_methods
    text_beq upper or_text filter lower split_once contains check check_text haystack_of matches
    search_from search_ignore_case match_here strip_left strip_right covers after_last normal_host
    new_destructive_guard
admits_home = refl

transmits_it : Memᴰ the_request (transmit engine flaky alice (codes "GET") home [] none).1
unfolding transmit send_loop max_attempts text_beq
transmits_it = Memᴰ.tail (Memᴰ.head refl)

sends_it :
    Memᴰ the_request
      (request simple_library engine flaky alice (codes "get") home [] none [] false).1
unfolding request upper
sends_it = rw (admits_home, if_admitted) transmits_it

request-sent_example :
    (the_request ≡ sent (upper (codes "get")) home (request_headers engine alice []))
    × ((parts : SplitResult) × (urlsplit simple_library home ≡ ok parts)
        × IsInScope simple_library engine.scope_guard
            (upper (upper (codes "get")))
            (hostname parts)
            (or_text parts.path (codes "/")))
    × IsHarmless false (check simple_library engine.destructive_guard (upper (codes "get")) home [])
request-sent_example =
    request-sent simple_library engine flaky alice (codes "get") home [] none [] false the_request
      sends_it refl
