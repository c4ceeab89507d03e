-- ===== src/Scope/Destructive.antt =====
-- packages/core/src/sentinel_core/scope_guard/destructive.py: the default patterns and
-- `DestructiveActionGuard.check`. A further pattern comes compiled, as its text and its `search`.
use security_tool.Prelude.{
  ℕ, Bool, true, false, ◌&&◌, ◌||◌, not, ◌≡◌, refl, List, [], ◌∷◌, ◌++◌, map, Text, codes, text_eq,
  Option, none, some, nat_beq, contains, find, upper, any, is_some, arith, any-find, if◌then◌else◌,
  Outcome, ok, ◌>>=◌,
}
use security_tool.Url.{Library, Fault, SplitResult, urlsplit}
use security_tool.Scope.{Reason, destructive_pattern, destructive_method, no_signal}
use security_tool.Scope.Pattern.{
  Item, opt, word_star, boundary, lits, keyword, search_ignore_case, Compiled, default, extra,
}

-- `\bword\w*\b`
abbrev stem : Text → List Item
stem w = boundary ∷ lits w ++ word_star ∷ boundary ∷ []

abbrev is_separator : ℕ → Bool
is_separator c = nat_beq c b'-' || nat_beq c b'_' || nat_beq c 32

-- `\bfirst[-_ ]?second\b`
abbrev two_words : Text → Text → List Item
two_words v w = boundary ∷ lits v ++ opt is_separator ∷ lits w ++ boundary ∷ []

-- `pattern.search(haystack)`
unfoldable pub matches : (ℕ → Bool) → Text → Compiled → Bool
unfolding search_ignore_case
matches alnum haystack (default is) = search_ignore_case alnum is haystack
matches alnum haystack (extra source search) = search haystack

abbrev pub default_patterns : List (List Item)
default_patterns =
    (keyword (codes "delete"))
    ∷ (boundary ∷ lits (codes "delete") ++ opt (nat_beq b's') ∷ boundary ∷ [])
    ∷ (keyword (codes "remove"))
    ∷ (stem (codes "deactivat"))
    ∷ (keyword (codes "cancel"))
    ∷ (stem (codes "unsubscrib"))
    ∷ (keyword (codes "purge"))
    ∷ (keyword (codes "reset"))
    ∷ (keyword (codes "destroy"))
    ∷ (stem (codes "terminat"))
    ∷ (two_words (codes "close") (codes "account"))
    ∷ (keyword (codes "logout"))
    ∷ (two_words (codes "sign") (codes "out"))
    ∷ (keyword (codes "revoke"))
    ∷ (keyword (codes "wipe"))
    ∷ (keyword (codes "drop"))
    ∷ (stem (codes "truncat"))
    ∷ (two_words (codes "forget") (codes "me"))
    ∷ []

abbrev pub non_idempotent_methods : List Text
non_idempotent_methods = codes "POST" ∷ codes "PUT" ∷ codes "PATCH" ∷ codes "DELETE" ∷ []

pub record DestructiveCheck : Type 0 where
  pub is_suspect : Bool
  pub reason : Reason
  pub matched_pattern : Option Compiled

pub record DestructiveActionGuard : Type 0 where
  pub read_write_enabled : Bool
  pub compiled : List Compiled

-- `__post_init__`: the extra patterns follow the default ones.
unfoldable pub new_destructive_guard : Bool → List Compiled → DestructiveActionGuard
new_destructive_guard read_write extras = record {
  read_write_enabled = read_write;
  compiled = map default default_patterns ++ extras;
}

-- `" ".join([parts.path, parts.query, link_text])`
unfoldable pub haystack_of : SplitResult → Text → Text
haystack_of parts link_text = parts.path ++ 32 ∷ (parts.query ++ 32 ∷ link_text)

judge : Option Compiled → Bool → Text → Bool → DestructiveCheck
judge (some p) suspect_method m read_write = record {
  is_suspect = true;
  reason = destructive_pattern p;
  matched_pattern = some p;
}
judge none suspect_method m read_write =
    if suspect_method && not read_write
    then record { is_suspect = true; reason = destructive_method m; matched_pattern = none }
    else record { is_suspect = false; reason = no_signal; matched_pattern = none }

-- The verdict on the text that is searched.
unfoldable pub check_text : (ℕ → Bool) → DestructiveActionGuard → Text → Text → DestructiveCheck
unfolding judge
check_text alnum g m haystack =
    judge (find (matches alnum haystack) g.compiled) (contains non_idempotent_methods m) m
      g.read_write_enabled

-- `DestructiveActionGuard.check`
unfoldable pub check :
    Library → DestructiveActionGuard → Text → Text → Text → Outcome Fault DestructiveCheck
check lib g m url link_text = urlsplit lib url >>= λ parts.
    ok (check_text lib.alnum g (upper m) (haystack_of parts link_text))

-- A check finds a suspect exactly when a pattern matches, or when the method is not idempotent and
-- the target is not opted into read-write testing.
pub check_text-is_suspect :
    (alnum : ℕ → Bool) (g : DestructiveActionGuard) (m haystack : Text)
    → (check_text alnum g m haystack).is_suspect ≡ (
        any (matches alnum haystack) g.compiled
        || contains non_idempotent_methods m && not g.read_write_enabled)
unfolding check_text
check_text-is_suspect alnum g m haystack =
    rw (any-find (matches alnum haystack) g.compiled)
      (by_match (find (matches alnum haystack) g.compiled) (contains non_idempotent_methods m))
  where
    by_match :
        (o : Option Compiled) (b : Bool)
        → (judge o b m g.read_write_enabled).is_suspect
          ≡ (is_some o || b && not g.read_write_enabled)
    by_match none b = ground arith
    by_match (some p) b = refl
