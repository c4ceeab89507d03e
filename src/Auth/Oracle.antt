-- ===== src/Auth/Oracle.antt =====
-- packages/auth/src/sentinel_auth/oracle.py, with `EngineResponse.text`. The decoder of bytes that
-- are not UTF-8 is a parameter.
use security_tool.Prelude.{
  ℕ, Bool, false, not, ◌&&◌, ◌||◌, List, [], ◌∷◌, ◌++◌, Option, none, some, Text, ◌==◌, text_eq,
  nat_beq, leb, length, contains, strip, has_sub, decimal, if◌then◌else◌, Outcome, ok, raise,
}
use security_tool.Url.{Library}
use security_tool.Transcript.{text, binary}
use security_tool.Engine.{
  HttpEngine, Attempt, Event, EngineError, EngineResponse, SessionState, anonymous_session, request,
}

pub data OracleSignal : Type 0 where
  status_code body_contains : OracleSignal

pub record SessionOracle : Type 0 where
  pub probe_method : Text
  pub probe_url : Text
  pub signal : OracleSignal
  pub authenticated_value : Text

-- The message: which of the three it is, with what it names.
pub data OracleDetail : Type 0 where
  status_differs : ℕ → ℕ → OracleDetail
  body_differs : OracleDetail
  no_differential : Text → Text → ℕ → OracleDetail

pub record OracleEstablishmentResult : Type 0 where
  pub oracle : Option SessionOracle
  pub detail : OracleDetail

-- str.splitlines() ends a line at these characters, and at a carriage return with its line feed.
abbrev pub is_line_end : ℕ → Bool
is_line_end c =
    leb 10 c && leb c 13
    || leb 28 c && leb c 30
    || nat_beq c 0x85
    || nat_beq c 0x2028
    || nat_beq c 0x2029

abbrev pub last_line : Text → List Text
last_line [] = []
last_line (c ∷ s) = (c ∷ s) ∷ []

-- `returned`: the character before was a carriage return that ended a line.
unfoldable pub lines_from : Bool → Text → Text → List Text
lines_from returned cur [] = last_line cur
lines_from returned cur (c ∷ s) =
    let same_end = lines_from false [] s in
    let closed = lines_from (nat_beq c 13) [] s in
    let longer = lines_from false (cur ++ c ∷ []) s in
    if returned && nat_beq c 10 then same_end else if is_line_end c then cur ∷ closed else longer

unfoldable pub splitlines : Text → List Text
splitlines s = lines_from false [] s

unfoldable pub response_text : (List ℕ → Text) → EngineResponse → Text
response_text decode r = elim r.body [ text t ↦ t | binary b ↦ decode b ]

abbrev pub min_length : ℕ
min_length = 6

-- The loop of `_find_unique_line`, over the lines that are left.
unfoldable pub unique_line : List Text → List Text → Option Text
unfolding strip contains
unique_line [] anon_lines = none
unique_line (line ∷ lines) anon_lines =
    let stripped = strip line in
    if leb min_length (length stripped) && not (contains anon_lines stripped)
    then some stripped
    else unique_line lines anon_lines

unfoldable pub find_unique_line : Text → Text → Option Text
find_unique_line authenticated_text anonymous_text =
    unique_line (splitlines authenticated_text) (splitlines anonymous_text)

module _ (decode : List ℕ → Text) where
  -- `_matches`
  unfoldable pub oracle_matches : SessionOracle → EngineResponse → Bool
  unfolding has_sub decimal
  oracle_matches o r = elim o.signal [
    | status_code ↦ decimal r.status_code == o.authenticated_value
    | body_contains ↦ has_sub (response_text decode r) o.authenticated_value
  ]

  abbrev checked : SessionOracle → Outcome EngineError EngineResponse → Outcome EngineError Bool
  checked o (raise e) = raise e
  checked o (ok r) = ok (oracle_matches o r)

  -- `SessionOracle.check`
  unfoldable pub check :
      Library
      → HttpEngine
      → (ℕ → Attempt)
      → SessionState
      → SessionOracle
      → Outcome EngineError Bool × List Event
  unfolding request
  check lib e client persona o =
      let (result, events) =
        request lib e client persona o.probe_method o.probe_url [] none [] false in
      (checked o result, events)

  abbrev pub no_oracle : Text → Text → EngineResponse → OracleEstablishmentResult
  no_oracle probe_method probe_url auth = record {
    oracle = none;
    detail = no_differential probe_method probe_url auth.status_code;
  }

  abbrev pub oracle_of_line : Text → Text → EngineResponse → Option Text → OracleEstablishmentResult
  oracle_of_line probe_method probe_url auth none = no_oracle probe_method probe_url auth
  oracle_of_line probe_method probe_url auth (some []) = no_oracle probe_method probe_url auth
  oracle_of_line probe_method probe_url auth (some (c ∷ line)) = record {
    oracle = some record {
      probe_method = probe_method;
      probe_url = probe_url;
      signal = body_contains;
      authenticated_value = c ∷ line;
    };
    detail = body_differs;
  }

  -- What `establish_session_oracle` makes of the two responses.
  unfoldable pub compare_responses :
      Text → Text → EngineResponse → EngineResponse → OracleEstablishmentResult
  unfolding decimal
  compare_responses probe_method probe_url auth anon =
      let auth_text = response_text decode auth in
      let anon_text = response_text decode anon in
      if not (nat_beq auth.status_code anon.status_code)
      then record {
        oracle = some record {
          probe_method = probe_method;
          probe_url = probe_url;
          signal = status_code;
          authenticated_value = decimal auth.status_code;
        };
        detail = status_differs auth.status_code anon.status_code;
      }
      else if nat_beq auth.status_code anon.status_code && not (auth_text == anon_text)
      then oracle_of_line probe_method probe_url auth (find_unique_line auth_text anon_text)
      else no_oracle probe_method probe_url auth

  abbrev pub compared :
      Text
      → Text
      → EngineResponse
      → Outcome EngineError EngineResponse
      → Outcome EngineError OracleEstablishmentResult
  compared probe_method probe_url auth (raise e) = raise e
  compared probe_method probe_url auth (ok anon) =
      ok (compare_responses probe_method probe_url auth anon)

  abbrev pub after_authenticated :
      Text
      → Text
      → Outcome EngineError EngineResponse × List Event
      → Outcome EngineError EngineResponse × List Event
      → Outcome EngineError OracleEstablishmentResult × List Event
  after_authenticated probe_method probe_url (raise e, events) second = (raise e, events)
  after_authenticated probe_method probe_url (ok auth, events) (second, later) =
      (compared probe_method probe_url auth second, events ++ later)

  -- The two requests are answered by a client each.
  unfoldable pub establish_session_oracle :
      Library
      → HttpEngine
      → (ℕ → Attempt)
      → (ℕ → Attempt)
      → SessionState
      → Text
      → Text
      → Outcome EngineError OracleEstablishmentResult × List Event
  unfolding request
  establish_session_oracle lib e client anon_client persona probe_url probe_method =
      after_authenticated probe_method probe_url
        (request lib e client persona probe_method probe_url [] none [] false)
        (request lib e anon_client anonymous_session probe_method probe_url [] none [] false)
