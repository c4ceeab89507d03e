-- ===== src/Transcript.antt =====
-- packages/core/src/sentinel_core/transcript: models.py, scrub.py, recorder.py and the two
-- backends of store.py. A body is the text of its code points, or bytes that are not UTF-8.
pub mod Scrub
pub mod Store
pub mod Remote
pub mod Agreed
mod Tests
use security_tool.Scope.Pattern.{is_word?, first_char, fold_case, fold_char}
use security_tool.Prelude.{
  ℕ, zero, suc, ◌+◌, length, leb, nat_beq, Bool, true, false, ◌&&◌, ◌||◌, not, ◌≡◌, List, [], ◌∷◌,
  ◌++◌, map, Option, none, some, Text, codes, ◌==◌, text_eq, lower, contains, starts_with,
  if◌then◌else◌, Outcome, ok, raise, ◌>>=◌,
}

-- A header table: a dict in the order of insertion.
abbrev pub Headers : Type 0
Headers = List (Text × Text)

-- `bytes`, sorted by whether they decode as UTF-8.
pub data Body : Type 0 where
  text : Text → Body
  binary : List ℕ → Body

pub record RecordedRequest : Type 0 where
  pub method : Text
  pub url : Text
  pub headers : Headers
  pub body : Option Body

pub record RecordedResponse : Type 0 where
  pub status_code : ℕ
  pub headers : Headers
  pub body : Option Body

pub record Transcript : Type 0 where
  pub scan_id : Text
  pub persona_id : Option Text
  pub request : RecordedRequest
  pub response : Option RecordedResponse
  pub error : Option Text

abbrev pub sensitive_header_names : List Text
sensitive_header_names =
    codes "authorization"
    ∷ codes "cookie"
    ∷ codes "set-cookie"
    ∷ codes "x-api-key"
    ∷ codes "x-auth-token"
    ∷ codes "proxy-authorization"
    ∷ []

-- The word "redacted" between the quotation marks U+00AB and U+00BB.
abbrev pub redacted : Text
redacted = 0xab ∷ codes "redacted" ++ 0xbb ∷ []

scrub_value : Text × Text → Text × Text
unfolding contains lower
scrub_value (k, v) = (k, if contains sensitive_header_names (lower k) then redacted else v)

-- `scrub_headers`
unfoldable pub scrub_headers : Headers → Headers
unfolding scrub_value
scrub_headers [] = []
scrub_headers (h ∷ hs) = scrub_value h ∷ scrub_headers hs

-- Each match of a text is replaced. The matcher is given the character before a position, if there
-- is one, and the rest of the text, and says how many characters match there; `skip` counts the
-- characters of a match that are still to be dropped.
unfoldable pub sub_from : (Option ℕ → Text → ℕ) → Option ℕ → ℕ → Text → Text
sub_from matcher before skip [] = []
sub_from matcher before (suc skip) (c ∷ s) = sub_from matcher (some c) skip s
sub_from matcher before zero (c ∷ s) = elim (matcher before (c ∷ s)) [
  | zero ↦ c ∷ sub_from matcher (some c) 0 s
  | suc n ↦ redacted ++ sub_from matcher (some c) n s
]

-- `str.replace` and `Pattern.sub` with REDACTED.
unfoldable pub substitute : (Option ℕ → Text → ℕ) → Text → Text
substitute matcher s = sub_from matcher none 0 s

abbrev pub literal : Text → Option ℕ → Text → ℕ
literal secret before s = if starts_with s secret then length secret else 0

-- The characters at the start of a text that satisfy `p`, counted, and what follows them.
run_of : (ℕ → Bool) → Text → ℕ × Text
run_of p [] = (0, [])
run_of p (c ∷ s) = if p c then (suc (run_of p s).0, (run_of p s).1) else (0, c ∷ s)

abbrev is_alnum : ℕ → Bool
is_alnum c = leb b'a' c && leb c b'z' || leb b'A' c && leb c b'Z' || leb b'0' c && leb c b'9'

abbrev is_token_char : ℕ → Bool
is_token_char c = is_alnum c || nat_beq c b'_' || nat_beq c b'-'

abbrev tail_of : Text → Text
tail_of [] = []
tail_of (c ∷ s) = s

-- One part of a JSON web token and the dot behind it.
dotted_part : Text → Option (ℕ × Text)
unfolding run_of
dotted_part s =
    let (n, rest) = run_of is_token_char s in
    if leb 10 n && starts_with rest (codes ".") then some (n + 1, tail_of rest) else none

last_part : ℕ → Text → ℕ
unfolding run_of
last_part n s = let m = (run_of is_token_char s).0 in if leb 10 m then n + m else 0

second_part : Option (ℕ × Text) → ℕ → ℕ
unfolding last_part
second_part none n = 0
second_part (some (m, rest)) n = last_part (n + m) rest

first_part : Option (ℕ × Text) → ℕ
unfolding second_part dotted_part
first_part none = 0
first_part (some (m, rest)) = second_part (dotted_part rest) (3 + m)

-- The JSON web token. No run can be cut short, since the dot behind it is no token character.
unfoldable pub match_jwt : Option ℕ → Text → ℕ
unfolding first_part starts_with
match_jwt before s =
    if starts_with s (codes "eyJ")
    then first_part (dotted_part (tail_of (tail_of (tail_of s))))
    else 0

-- The key: a run of at least twenty letters and digits, with no word character on either side;
-- `alnum` says which characters beyond ASCII are letters or digits.
unfoldable pub match_key : (ℕ → Bool) → Option ℕ → Text → ℕ
unfolding run_of starts_with fold_case fold_char
match_key alnum before s =
    let (n, rest) = run_of (λ c. is_alnum (fold_char c)) (tail_of (tail_of (tail_of s))) in
    if not (is_word? alnum before)
      && starts_with (fold_case s) (codes "sk-")
      && leb 20 n
      && not (is_word? alnum (first_char rest))
    then 3 + n
    else 0

-- The loop over the secrets; an empty one is passed over.
unfoldable pub scrub_secrets : List Text → Text → Text
scrub_secrets [] s = s
scrub_secrets ([] ∷ secrets) s = scrub_secrets secrets s
scrub_secrets ((c ∷ w) ∷ secrets) s = scrub_secrets secrets (substitute (literal (c ∷ w)) s)

unfoldable pub scrub_text : (ℕ → Bool) → List Text → Text → Text
scrub_text alnum secrets s =
    substitute (match_key alnum) (substitute match_jwt (scrub_secrets secrets s))

-- `scrub_body`
unfoldable pub scrub_body : (ℕ → Bool) → List Text → Option Body → Option Body
scrub_body alnum secrets none = none
scrub_body alnum secrets (some (text s)) = some (text (scrub_text alnum secrets s))
scrub_body alnum secrets (some (binary b)) = some (binary b)

scrub_response : (ℕ → Bool) → List Text → Option RecordedResponse → Option RecordedResponse
scrub_response alnum secrets none = none
scrub_response alnum secrets (some r) =
    some (record r { headers = scrub_headers r.headers; body = scrub_body alnum secrets r.body })

-- What `TranscriptRecorder.record` serialises.
unfoldable pub scrubbed :
    (ℕ → Bool)
    → List Text
    → Text
    → Option Text
    → RecordedRequest
    → Option RecordedResponse
    → Option Text
    → Transcript
unfolding scrub_response
scrubbed alnum secrets scan persona request response error = record {
  scan_id = scan;
  persona_id = persona;
  request = record request {
    headers = scrub_headers request.headers;
    body = scrub_body alnum secrets request.body;
  };
  response = scrub_response alnum secrets response;
  error = error;
}
