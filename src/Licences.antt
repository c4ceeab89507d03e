-- ===== src/Licences.antt =====
-- infra/scripts/licence_check.py: the verdict on each installed distribution, and the exit code.
-- The report that is printed is left out.
pub mod Exit
mod Tests
use security_tool.Prelude.{
  ℕ, Bool, true, false, not, ◌&&◌, ◌||◌, List, [], ◌∷◌, ◌++◌, Option, none, some, Text, codes,
  lower, join, any, filter, has_sub, starts_with, leb, or_text, if◌then◌else◌, map,
}

abbrev pub allowed_licence_substrings : List Text
allowed_licence_substrings =
    codes "mit"
    ∷ codes "bsd"
    ∷ codes "apache"
    ∷ codes "python software foundation"
    ∷ codes "psf"
    ∷ codes "isc"
    ∷ codes "mozilla public license 2.0"
    ∷ codes "mpl-2.0"
    ∷ codes "mpl 2.0"
    ∷ codes "the unlicense"
    ∷ codes "public domain"
    ∷ []

abbrev pub denied_words : List Text
denied_words = codes "gpl" ∷ codes "agpl" ∷ codes "sspl" ∷ codes "commons clause" ∷ []

abbrev is_lower : ℕ → Bool
is_lower c = leb b'a' c && leb c b'z'

abbrev begins_lower : Text → Bool
begins_lower [] = false
begins_lower (c ∷ s) = is_lower c

-- What follows a word at the start of a text, if the word stands there.
unfoldable pub after_word : Text → Text → Option Text
after_word [] s = some s
after_word (c ∷ w) [] = none
after_word (c ∷ w) (d ∷ s) = if leb c d && leb d c then after_word w s else none

abbrev ends_word : Option Text → Bool
ends_word none = false
ends_word (some rest) = not (begins_lower rest)

-- `(?<![a-z])word(?![a-z])` is found; `inside` says that a letter stands before the text.
unfoldable pub search_word : Text → Bool → Text → Bool
unfolding after_word
search_word w inside [] = not inside && ends_word (after_word w [])
search_word w inside (c ∷ s) =
    not inside && ends_word (after_word w (c ∷ s)) || search_word w (is_lower c) s

pub record Distribution : Type 0 where
  pub name : Text
  pub summary : Text
  pub license_expression : Text
  pub license : Text
  pub classifiers : List Text

abbrev if_text : Text → List Text
if_text [] = []
if_text (c ∷ s) = (c ∷ s) ∷ []

-- `_licence_strings`: a field that is missing is empty here, and both are passed over.
unfoldable pub licence_strings : Distribution → List Text
unfolding filter starts_with
licence_strings d =
    if_text d.license_expression
    ++ if_text d.license
    ++ filter (λ c. starts_with c (codes "License ::")) d.classifiers

pub data Verdict : Type 0 where
  first_party unknown lgpl_reviewed denied accepted : Verdict

abbrev judge_text : Text → Verdict
judge_text lowered =
    if search_word (codes "lgpl") false lowered
    then lgpl_reviewed
    else if any (λ w. search_word w false lowered) denied_words
    then denied
    else if any (has_sub lowered) allowed_licence_substrings
    then accepted
    else unknown

abbrev judge_strings : List Text → Verdict
judge_strings [] = unknown
judge_strings (s ∷ strings) = judge_text (lower (join (codes " | ") (s ∷ strings)))

-- The body of the loop. The list of manual exceptions is empty.
unfoldable pub verdict_on : Distribution → Verdict
unfolding starts_with lower or_text search_word any has_sub join
verdict_on d =
    if starts_with (lower (or_text d.name (or_text d.summary (codes "unknown"))))
      (codes "sentinel-")
    then first_party
    else judge_strings (licence_strings d)

abbrev pub is_denied : Verdict → Bool
is_denied denied = true
is_denied first_party = false
is_denied unknown = false
is_denied lgpl_reviewed = false
is_denied accepted = false

unfoldable pub exit_code : List Distribution → ℕ
unfolding any
exit_code ds = if any (λ d. is_denied (verdict_on d)) ds then 1 else 0
