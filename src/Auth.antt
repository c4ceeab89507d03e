-- ===== src/Auth.antt =====
-- packages/auth/src/sentinel_auth/persona_session.py: a persona's session after its login.
-- Playwright gives each cookie a name and a value.
pub mod Oracle
pub mod Parts
pub mod Signals
pub mod Cookies
pub mod Replay
pub mod Followed
mod Tests
use security_tool.Prelude.{
  Bool, true, false, not, ◌&&◌, ◌||◌, List, [], ◌∷◌, ◌++◌, Option, none, some, Text, codes, ◌==◌,
  text_eq, strip_left, is_dot, ends_with, if◌then◌else◌,
}
use security_tool.Transcript.{Headers}
use security_tool.Engine.{SessionState, insert}

pub record Cookie : Type 0 where
  pub domain : Option Text
  pub name : Text
  pub value : Text

pub record StorageState : Type 0 where
  pub cookies : Option (List Cookie)

pub record PersonaSession : Type 0 where
  pub persona_id : Text
  pub storage_state : StorageState
  pub target_host : Option Text

abbrev pub or_empty : Option Text → Text
or_empty none = []
or_empty (some s) = s

abbrev pub is_set : Text → Bool
is_set [] = false
is_set (c ∷ s) = true

unfoldable pub domain_matches : PersonaSession → Text → Bool
unfolding ends_with
domain_matches p cookie_domain =
    let host = or_empty p.target_host in
    host == cookie_domain || ends_with host (b'.' ∷ cookie_domain)

-- cookie.get("domain", "").lstrip(".")
unfoldable pub cookie_domain : Cookie → Text
unfolding strip_left
cookie_domain c = strip_left is_dot (or_empty c.domain)

unfoldable pub is_foreign : PersonaSession → Cookie → Bool
unfolding cookie_domain domain_matches
is_foreign p c =
    is_set (or_empty p.target_host)
    && is_set (cookie_domain c)
    && not (domain_matches p (cookie_domain c))

unfoldable pub collect_cookies : PersonaSession → List Cookie → Headers → Headers
unfolding insert
collect_cookies p [] result = result
collect_cookies p (c ∷ cs) result =
    if is_foreign p c
    then collect_cookies p cs result
    else collect_cookies p cs (insert c.name c.value result)

abbrev pub all_cookies : Option (List Cookie) → List Cookie
all_cookies none = []
all_cookies (some cs) = cs

unfoldable pub cookies : PersonaSession → Headers
cookies p = collect_cookies p (all_cookies p.storage_state.cookies) []

unfoldable pub extra_headers : PersonaSession → Headers
extra_headers p = []

-- What the engine sees of the session.
unfoldable pub session_state : PersonaSession → SessionState
session_state p = record {
  persona_id = p.persona_id;
  cookies = cookies p;
  extra_headers = extra_headers p;
}
