-- ===== src/Engine.antt =====
-- packages/core/src/sentinel_core/http_engine: session.py and `HttpEngine.request` of engine.py.
-- What a request does to the world is the list of its events, in their order; what the HTTP client
-- returns at each attempt is a parameter. The times that are measured are not modelled.
pub mod Guarded
pub mod Attempts
mod Tests
use security_tool.Prelude.{
  ℕ, zero, suc, ◌+◌, Bool, true, false, ◌&&◌, ◌||◌, not, ◌≡◌, List, [], ◌∷◌, ◌++◌, map, Option,
  none, some, Text, codes, ◌==◌, text_eq, nat_eq, upper, join, contains, ltb, if◌then◌else◌,
  Outcome, ok, raise, ◌>>=◌,
}
use security_tool.Url.{Library, Fault}
use security_tool.Scope.{
  ScopeDecision, ScopeGuard, Reason, blocked_method, is_allowed, evaluate, ScopeVerdict,
}
use security_tool.Scope.Destructive.{DestructiveActionGuard, DestructiveCheck, check}
use security_tool.Transcript.{Headers, Body, text, RecordedRequest, RecordedResponse}

-- `SessionState`: what the engine asks of a persona.
pub record SessionState : Type 0 where
  pub persona_id : Text
  pub cookies : Headers
  pub extra_headers : Headers

abbrev pub anonymous_session : SessionState
anonymous_session = record { persona_id = codes "anonymous"; cookies = []; extra_headers = [] }

pub data EngineError : Type 0 where
  scope_violation : ScopeDecision → EngineError
  guard_fault : Fault → EngineError
  connection_error : Text → ℕ → EngineError
  client_error : Text → EngineError

-- What the client does at one attempt: it answers, or it raises a `TimeoutException`, a
-- `TransportError` or, before anything is sent or after, another exception, such as `InvalidURL` or
-- `DecodingError`.
pub data Attempt : Type 0 where
  answered : RecordedResponse → Attempt
  timed_out transport_failed : Attempt
  not_sent unreadable : Text → Attempt

pub data SendError : Type 0 where
  timeout transport_error : SendError

-- `sent` is a call of the client with its arguments.
pub data Event : Type 0 where
  acquired : Event
  sent : Text → Text → Headers → Event
  backpressure : ℕ → Event
  success : Event
  recorded : Text → RecordedRequest → Option RecordedResponse → Option SendError → Event

pub record EngineResponse : Type 0 where
  pub status_code : ℕ
  pub headers : Headers
  pub body : Body
  pub url : Text

pub record HttpEngine : Type 0 where
  pub scope_guard : ScopeGuard
  pub destructive_guard : DestructiveActionGuard
  pub max_retries : ℕ
  pub user_agent : Text

abbrev pub idempotent_methods : List Text
idempotent_methods = codes "GET" ∷ codes "HEAD" ∷ codes "OPTIONS" ∷ []

abbrev pub rate_limited_status_codes : List ℕ
rate_limited_status_codes = 429 ∷ 503 ∷ []

-- d[k] = v: a key keeps its place.
unfoldable pub insert : Text → Text → Headers → Headers
insert k v [] = (k, v) ∷ []
insert k v ((j, w) ∷ d) = if j == k then (k, v) ∷ d else (j, w) ∷ insert k v d

-- {**d, **e}
unfoldable pub merge : Headers → Headers → Headers
unfolding insert
merge d [] = d
merge d ((k, v) ∷ e) = merge (insert k v d) e

unfoldable pub lookup : Text → Headers → Option Text
lookup k [] = none
lookup k ((j, v) ∷ d) = if j == k then some v else lookup k d

-- d.setdefault(k, v)
unfoldable pub set_default : Text → Text → Headers → Headers
set_default k v d = elim (lookup k d) [ some w ↦ d | none ↦ d ++ (k, v) ∷ [] ]

-- "; ".join(f"{k}={v}" ...)
unfoldable pub cookie_header : Headers → Text
unfolding join
cookie_header cookies = join (codes "; ") (map (λ c. c.0 ++ b'=' ∷ c.1) cookies)

unfoldable pub add_cookies : Headers → Headers → Headers
unfolding set_default cookie_header lookup
add_cookies [] headers = headers
add_cookies (c ∷ cs) headers = set_default (codes "Cookie") (cookie_header (c ∷ cs)) headers

-- The dict that the client is given; the client may add cookies of its own to it.
unfoldable pub request_headers : HttpEngine → SessionState → Headers → Headers
unfolding merge add_cookies
request_headers e persona headers =
    add_cookies persona.cookies
      (merge (merge ((codes "User-Agent", e.user_agent) ∷ []) persona.extra_headers) headers)

-- The variables of the loop: the last response, the last error, the attempts made, the events; and
-- the exception that leaves it, if one does.
pub record LoopState : Type 0 where
  pub response : Option RecordedResponse
  pub error : Option SendError
  pub attempt : ℕ
  pub events : List Event
  pub escaped : Option Text

abbrev pub failed_with : SendError → Event → LoopState → LoopState
failed_with e sending s = record s {
  error = some e;
  attempt = s.attempt + 1;
  events = s.events ++ sending ∷ [];
}

-- An exception that no `except` of the loop catches.
abbrev pub escaped_with : Text → List Event → LoopState → LoopState
escaped_with e sending s = record s {
  escaped = some e;
  attempt = s.attempt + 1;
  events = s.events ++ sending;
}

-- A response that is not rate limited ends the loop; one that is ends it at the last attempt.
abbrev pub answered_with : RecordedResponse → Event → Event → LoopState → LoopState
answered_with r sending report s = record s {
  response = some r;
  attempt = s.attempt + 1;
  events = s.events ++ sending ∷ report ∷ [];
}

-- `while attempt < max_attempts`, over the attempts that are left.
unfoldable pub send_loop : (ℕ → Attempt) → Event → ℕ → LoopState → LoopState
unfolding contains
send_loop client sending zero s = s
send_loop client sending (suc left) s = elim (client s.attempt) [
  | timed_out ↦ send_loop client sending left (failed_with timeout sending s)
  | transport_failed ↦ send_loop client sending left (failed_with transport_error sending s)
  | not_sent e ↦ escaped_with e [] s
  | unreadable e ↦ escaped_with e (sending ∷ []) s
  | answered r ↦ elim (contains rate_limited_status_codes r.status_code) [
    | true ↦ send_loop client sending left (answered_with r sending (backpressure r.status_code) s)
    | false ↦ answered_with r sending success s
  ]
]

unfoldable pub max_attempts : HttpEngine → Text → ℕ
unfolding contains
max_attempts e m = suc (if contains idempotent_methods m then e.max_retries else 0)

abbrev pub start_state : LoopState
start_state = record {
  response = none;
  error = none;
  attempt = 0;
  events = acquired ∷ [];
  escaped = none;
}

abbrev pub body_or_empty : Option Body → Body
body_or_empty none = text []
body_or_empty (some b) = b

abbrev pub error_if_lost : Option RecordedResponse → Option SendError → Option SendError
error_if_lost none e = e
error_if_lost (some r) e = none

abbrev pub respond : Text → LoopState → Option RecordedResponse → Outcome EngineError EngineResponse
respond url s none = raise (connection_error url s.attempt)
respond url s (some r) = ok (record {
  status_code = r.status_code;
  headers = r.headers;
  body = body_or_empty r.body;
  url = url;
})

abbrev pub conclude :
    SessionState
    → Text
    → RecordedRequest
    → LoopState
    → Option Text
    → Outcome EngineError EngineResponse × List Event
conclude persona url req s (some e) = (raise (client_error e), s.events)
conclude persona url req s none = (
  respond url s s.response,
  s.events ++ recorded persona.persona_id req s.response (error_if_lost s.response s.error) ∷ [],
)

-- From the rate limiter on: sending, recording, the result.
unfoldable pub transmit :
    HttpEngine
    → (ℕ → Attempt)
    → SessionState
    → Text
    → Text
    → Headers
    → Option Body
    → Outcome EngineError EngineResponse × List Event
transmit e client persona m url headers body =
    let hs = request_headers e persona headers in
    let req : RecordedRequest = record { method = m; url = url; headers = hs; body = body } in
    let s = send_loop client (sent m url hs) (max_attempts e m) start_state in
    conclude persona url req s s.escaped

abbrev destructive_decision : DestructiveCheck → ScopeDecision
destructive_decision c = record { verdict = blocked_method; reason = c.reason; matched_rule = none }

abbrev pub admit_checked : Outcome Fault DestructiveCheck → Outcome EngineError (Unit {0})
admit_checked (raise f) = raise (guard_fault f)
admit_checked (ok c) =
    if c.is_suspect then raise (scope_violation (destructive_decision c)) else ok tt

abbrev pub admit_decided :
    Outcome Fault ScopeDecision
    → Bool
    → Outcome Fault DestructiveCheck
    → Outcome EngineError (Unit {0})
admit_decided (raise f) skip checked = raise (guard_fault f)
admit_decided (ok d) skip checked =
    if not (is_allowed d)
    then raise (scope_violation d)
    else if skip
    then ok tt
    else admit_checked checked

-- The two guards: the request may be sent, or what it raises.
unfoldable pub admit :
    Library → HttpEngine → Text → Text → Text → Bool → Outcome EngineError (Unit {0})
admit lib e m url link_text skip =
    admit_decided (evaluate lib e.scope_guard m url) skip
      (check lib e.destructive_guard m url link_text)

abbrev pub if_admitted :
    Outcome EngineError (Unit {0})
    → Outcome EngineError EngineResponse × List Event
    → Outcome EngineError EngineResponse × List Event
if_admitted (raise x) run = (raise x, [])
if_admitted (ok u) run = run

-- `HttpEngine.request`
unfoldable pub request :
    Library
    → HttpEngine
    → (ℕ → Attempt)
    → SessionState
    → Text
    → Text
    → Headers
    → Option Body
    → Text
    → Bool
    → Outcome EngineError EngineResponse × List Event
request lib e client persona method url headers body link_text skip =
    if_admitted (admit lib e (upper method) url link_text skip)
      (transmit e client persona (upper method) url headers body)
