-- ===== src/Url.antt =====
-- `urllib.parse.urlsplit` of Python's standard library, as far as the program uses it, and the
-- library functions that the model takes as given.
use security_tool.Prelude.{
  ℕ, Bool, true, false, not, ◌&&◌, ◌||◌, [], ◌∷◌, ◌++◌, Option, none, some, Text, codes, leb,
  nat_beq, ◌==◌, nat_eq, text_eq, lower, split_once, strip_left, if◌then◌else◌, contains, all,
  filter, Outcome, ok, raise,
}

-- What the guards can raise besides a decision: `ValueError` of a malformed URL, and `re.error`
-- of a pattern that is no regular expression.
pub data Fault : Type 0 where
  bad_url bad_pattern : Fault

-- `search pattern text` is `re.search`, `none` being `re.error`; `netloc_valid` is the library's
-- check of a bracketed address and of the characters of a network location; `alnum` is
-- `str.isalnum` of a character beyond ASCII.
pub record Library : Type 0 where
  pub search : Text → Text → Option Bool
  pub netloc_valid : Text → Bool
  pub alnum : ℕ → Bool

pub record SplitResult : Type 0 where
  pub scheme : Text
  pub netloc : Text
  pub path : Text
  pub query : Text
  pub fragment : Text

abbrev is_letter : ℕ → Bool
is_letter c = leb b'a' c && leb c b'z' || leb b'A' c && leb c b'Z'

abbrev pub is_digit : ℕ → Bool
is_digit c = leb b'0' c && leb c b'9'

abbrev is_scheme_char : ℕ → Bool
is_scheme_char c = is_letter c || is_digit c || contains (codes "+-.") c

abbrev starts_with_letter : Text → Bool
starts_with_letter [] = false
starts_with_letter (c ∷ s) = is_letter c

-- The scheme, if what stands before the first ":" is one, and the rest of the URL.
split_scheme : Text → Text × Text
unfolding split_once all contains lower
split_scheme url =
    let (before, after) = split_once b':' url in
    elim after [
      | none ↦ ([], url)
      | some rest ↦
          if starts_with_letter url && not (before == []) && all is_scheme_char before
          then (lower before, rest)
          else ([], url)
    ]

-- The network location: what stands before the first of "/", "?" and "#".
split_netloc : Text → Text × Text
unfolding contains
split_netloc [] = ([], [])
split_netloc (c ∷ s) =
    if contains (codes "/?#") c then ([], c ∷ s) else (c ∷ (split_netloc s).0, (split_netloc s).1)

take_netloc : Text → Text × Text
unfolding split_netloc
take_netloc (a ∷ b ∷ url) = if a == b'/' && b == b'/' then split_netloc url else ([], a ∷ b ∷ url)
take_netloc url = ([], url)

-- `[` and `]` stand together or not at all.
brackets_match : Text → Bool
unfolding contains
brackets_match netloc = elim (contains netloc b'[') [
  | true ↦ contains netloc b']'
  | false ↦ not (contains netloc b']')
]

abbrev or_empty : Option Text → Text
or_empty none = []
or_empty (some s) = s

-- Leading controls and spaces, and every tab and line end, are dropped first.
clean : Text → Text
unfolding filter contains strip_left
clean url = filter (λ c. not (contains (9 ∷ 10 ∷ 13 ∷ []) c)) (strip_left (λ c. leb c 32) url)

unfoldable pub urlsplit : Library → Text → Outcome Fault SplitResult
unfolding clean split_scheme take_netloc brackets_match split_once
urlsplit lib raw =
    let (scheme, rest) = split_scheme (clean raw) in
    let (netloc, rest') = take_netloc rest in
    let (before_hash, fragment) = split_once b'#' rest' in
    let (path, query) = split_once b'?' before_hash in
    if brackets_match netloc && lib.netloc_valid netloc
    then ok (record {
      scheme = scheme;
      netloc = netloc;
      path = path;
      query = or_empty query;
      fragment = or_empty fragment;
    })
    else raise bad_url

-- The text after the last `c`, the whole text if there is none: s.rpartition(c)[2].
unfoldable pub after_last : ℕ → Text → Text
unfolding contains
after_last c [] = []
after_last c (d ∷ s) = if nat_beq d c || contains s c then after_last c s else d ∷ s

-- A host in brackets ends at "]", another at the port.
host_of : Text × Option Text → Text
unfolding split_once
host_of (before, none) = (split_once b':' before).0
host_of (before, some inside) = (split_once b']' inside).0

-- The zone of an address keeps its case.
lower_host : Text × Option Text → Text
unfolding lower
lower_host (host, none) = lower host
lower_host (host, some zone) = lower host ++ b'%' ∷ zone

-- `parts.hostname or ""`
unfoldable pub hostname : SplitResult → Text
unfolding after_last host_of split_once lower_host
hostname parts =
    lower_host (split_once b'%' (host_of (split_once b'[' (after_last b'@' parts.netloc))))
