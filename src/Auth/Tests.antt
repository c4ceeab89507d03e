-- ===== src/Auth/Tests.antt =====
-- A persona of a small target: its cookies, its login and its oracle.
use security_tool.Prelude.{
  ℕ, true, false, ◌≡◌, refl, ap, List, [], ◌∷◌, ◌++◌, Option, none, some, Text, codes, Memᴰ, upper,
  or_text, starts_with, ok, text_beq, any, find, filter, lower, split_once, strip_left, contains,
  has_sub, strip, strip_right, ends_with,
}
use security_tool.Url.{Library, urlsplit, hostname, after_last}
use security_tool.Scope.{
  standard_methods, evaluate, evaluate_at, host_matches, decide_path, first_match, decide_exclude,
  decide_include, decide_method, decide_named, decide_listed, allowed_methods, covers, normal_host,
}
use security_tool.Scope.Pattern.{search_from, search_ignore_case, match_here, lits}
use security_tool.Scope.Destructive.{new_destructive_guard, check, check_text, haystack_of, matches}
use security_tool.Transcript.{text}
use security_tool.Engine.{
  HttpEngine, SessionState, Attempt, answered, request, transmit, EngineResponse, anonymous_session,
  send_loop, max_attempts, admit, if_admitted, insert,
}
use security_tool.Auth.{
  Cookie, PersonaSession, session_state, cookies, collect_cookies, is_foreign, cookie_domain,
  domain_matches, all_cookies,
}
use security_tool.Auth.Cookies.{IsForTarget, session_state-IsStored}
use security_tool.Auth.Oracle.{
  establish_session_oracle, compare_responses, splitlines, lines_from, find_unique_line,
  unique_line,
}
use security_tool.Auth.Signals.{IsTelling, establish-IsTelling}
use security_tool.Auth.Replay.{
  StepAction, fill, fill_secret, click, LoginStep, LoginRecipe, Credentials, url_contains,
}

-- A cookie of the target's domain, and one of the identity provider.
abbrev target_cookie : Cookie
target_cookie = record { domain = some (codes ".acme.test"); name = codes "sid"; value = codes "1" }

abbrev provider_cookie : Cookie
provider_cookie = record { domain = some (codes "idp.test"); name = codes "sso"; value = codes "9" }

abbrev alice : PersonaSession
alice = record {
  persona_id = codes "alice";
  storage_state = record { cookies = some (provider_cookie ∷ target_cookie ∷ []) };
  target_host = some (codes "www.acme.test");
}

alice_sends : (session_state alice).cookies ≡ (codes "sid", codes "1") ∷ []
unfolding session_state cookies collect_cookies is_foreign cookie_domain domain_matches strip_left
    ends_with text_beq insert
alice_sends = refl

sends_sid : Memᴰ (codes "sid", codes "1") (session_state alice).cookies
sends_sid = rw alice_sends (Memᴰ.head refl)

session_state-IsStored_example :
    (c : Cookie) × Memᴰ c (all_cookies alice.storage_state.cookies)
    × ◌≡◌ {A = Text × Text} (codes "sid", codes "1") (c.name, c.value)
    × IsForTarget alice c
session_state-IsStored_example = session_state-IsStored alice sends_sid

abbrev step : StepAction → Text → Option Text → Option Text → LoginStep
step a selector value ref = record {
  action = a;
  selector = some selector;
  value = value;
  credential_ref = ref;
}

abbrev recipe : LoginRecipe
recipe = record {
  start_url = codes "https://acme.test/login";
  steps =
      step fill (codes "#user") (some (codes "alice")) none
      ∷ step fill_secret (codes "#password") none (some (codes "pw"))
      ∷ step click (codes "#go") none none
      ∷ [];
  success_assertion = record { kind = url_contains; value = codes "/home" };
  strategy = codes "form";
}

abbrev vault : Credentials
vault = (codes "pw", record { ref = codes "pw"; secret = codes "hunter2" }) ∷ []

abbrev simple_library : Library
simple_library = record {
  search = λ p s. some (starts_with s p);
  netloc_valid = λ s. true;
  alnum = λ c. false;
}

abbrev engine : HttpEngine
engine = record {
  scope_guard = record {
    allowed_hosts = codes "acme.test" ∷ [];
    rules = [];
    target_ownership_verified = true;
    default_allowed_methods = standard_methods;
  };
  destructive_guard = new_destructive_guard false [];
  max_retries = 0;
  user_agent = codes "scanner";
}

abbrev account : Text
account = codes "https://acme.test/account"

abbrev get_method : Text
get_method = codes "GET"

abbrev answers : ℕ → Text → ℕ → Attempt
answers status body k =
    answered record { status_code = status; headers = []; body = some (text body) }

admits_account : admit simple_library engine get_method account [] false ≡ ok tt
unfolding admit evaluate urlsplit evaluate_at any host_matches hostname decide_path first_match
    decide_exclude decide_include decide_method decide_named find decide_listed allowed_methods
    text_beq upper or_text filter lower split_once contains check check_text haystack_of matches
    search_from search_ignore_case match_here strip_left strip_right covers after_last normal_host
    new_destructive_guard lits
admits_account = refl

sends_account :
    (client : ℕ → Attempt) (s : SessionState)
    → request simple_library engine client s get_method account [] none [] false
      ≡ transmit engine client s get_method account [] none
unfolding request upper
sends_account client s =
    ap (λ a. if_admitted a (transmit engine client s get_method account [] none)) admits_account

abbrev decode : List ℕ → Text
decode b = []

abbrev response : ℕ → Text → EngineResponse
response status body = record {
  status_code = status;
  headers = [];
  body = text body;
  url = account;
}

establishes :
    (establish_session_oracle decode simple_library engine
      (answers 200 (codes "Hi"))
      (answers 302 [])
      (session_state alice)
      account
      get_method).0
    ≡ ok (compare_responses decode get_method account (response 200 (codes "Hi")) (response 302 []))
unfolding establish_session_oracle transmit send_loop max_attempts contains
establishes =
    rw
      (
        sends_account (answers 200 (codes "Hi")) (session_state alice),
        sends_account (answers 302 []) anonymous_session,
      )
      refl

establish-IsTelling_example :
    (auth : EngineResponse) × (anon : EngineResponse) × ((request simple_library engine
        (answers 200 (codes "Hi"))
        (session_state alice)
        get_method
        account
        []
        none
        []
        false).0
      ≡ ok auth)
    × ((request simple_library engine
          (answers 302 [])
          anonymous_session
          get_method
          account
          []
          none
          []
          false).0
        ≡ ok anon)
    × IsTelling decode auth anon
        (compare_responses decode get_method account
          (response 200 (codes "Hi"))
          (response 302 [])).oracle
establish-IsTelling_example =
    establish-IsTelling decode simple_library engine (answers 200 (codes "Hi")) (answers 302 [])
      (session_state alice) account get_method establishes

-- An indented line that both bodies have is taken for one that only the first has, and the oracle
-- then accepts the anonymous response too.
abbrev indented : Text → Text
indented name = codes "<html>" ++ 10 ∷ (codes "  <head>" ++ 10 ∷ name)

indented_line :
    find_unique_line (indented (codes "alice")) (indented (codes "sign in")) ≡ some (codes "<head>")
unfolding find_unique_line splitlines lines_from unique_line strip strip_left strip_right contains
    text_beq
indented_line = refl

accepts_anonymous : has_sub (indented (codes "sign in")) (codes "<head>") ≡ true
unfolding has_sub starts_with
accepts_anonymous = refl
