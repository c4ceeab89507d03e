-- ===== src/Scope/Pattern.antt =====
-- The regular expressions that destructive.py is written in, and `re.search` on them. `alnum` says
-- which characters beyond ASCII are letters or digits of Unicode, which `\w` and `\b` go by.
use security_tool.Prelude.{
  ℕ, Bool, true, false, ◌&&◌, ◌||◌, not, ◌≡◌, refl, List, [], ◌∷◌, ◌++◌, Text, Option, none, some,
  leb, nat_beq, all, nat_eq, arith, ◌+◌, if◌then◌else◌, nat_beq_iff,
}

-- `[...]`, `[...]?`, `\w*` and `\b`.
pub data Item : Type 0 where
  one opt : (ℕ → Bool) → Item
  word_star boundary : Item

-- The characters that `re.IGNORECASE` takes for a lower-case one of ASCII: besides the capitals, the
-- capital I with a dot, the small i without one, the long s and the Kelvin sign. The others stay.
unfoldable pub fold_char : ℕ → ℕ
fold_char c =
    if leb b'A' c && leb c b'Z'
    then c + 32
    else if nat_beq c 0x130 || nat_beq c 0x131
    then b'i'
    else if nat_beq c 0x17f
    then b's'
    else if nat_beq c 0x212a
    then b'k'
    else c

unfoldable pub fold_case : Text → Text
fold_case [] = []
fold_case (c ∷ s) = fold_char c ∷ fold_case s

abbrev pub is_word : (ℕ → Bool) → ℕ → Bool
is_word alnum c =
    leb b'a' c && leb c b'z'
    || leb b'A' c && leb c b'Z'
    || leb b'0' c && leb c b'9'
    || nat_beq c b'_'
    || leb 128 c && alnum c

abbrev pub is_word? : (ℕ → Bool) → Option ℕ → Bool
is_word? alnum none = false
is_word? alnum (some c) = is_word alnum c

abbrev pub first_char : Text → Option ℕ
first_char [] = none
first_char (c ∷ s) = some c

abbrev differ : Bool → Bool → Bool
differ true b = not b
differ false b = b

-- A match that begins here; the first text is the character before, if there is one.
unfoldable pub match_here : (ℕ → Bool) → List Item → Option ℕ → Text → Bool
match_here alnum [] before s = true
match_here alnum (boundary ∷ is) before s =
    differ (is_word? alnum before) (is_word? alnum (first_char s)) && match_here alnum is before s
match_here alnum (one p ∷ is) before [] = false
match_here alnum (one p ∷ is) before (c ∷ s) = p c && match_here alnum is (some c) s
match_here alnum (opt p ∷ is) before [] = match_here alnum is before []
match_here alnum (opt p ∷ is) before (c ∷ s) =
    p c && match_here alnum is (some c) s || match_here alnum is before (c ∷ s)
match_here alnum (word_star ∷ is) before [] = match_here alnum is before []
match_here alnum (word_star ∷ is) before (c ∷ s) =
    is_word alnum c && match_here alnum (word_star ∷ is) (some c) s
    || match_here alnum is before (c ∷ s)

unfoldable pub search_from : (ℕ → Bool) → List Item → Option ℕ → Text → Bool
search_from alnum is before [] = match_here alnum is before []
search_from alnum is before (c ∷ s) =
    match_here alnum is before (c ∷ s) || search_from alnum is (some c) s

-- `re.search` under `re.IGNORECASE`, for a pattern written in lower case.
unfoldable pub search_ignore_case : (ℕ → Bool) → List Item → Text → Bool
unfolding search_from match_here fold_case fold_char
search_ignore_case alnum is s = search_from alnum is none (fold_case s)

unfoldable pub lits : Text → List Item
lits [] = []
lits (c ∷ s) = one (nat_beq c) ∷ lits s

-- `\b` word `\b`
abbrev pub keyword : Text → List Item
keyword w = boundary ∷ lits w ++ boundary ∷ []

-- The character before what follows `s`.
abbrev pub last_char : Option ℕ → Text → Option ℕ
last_char before [] = before
last_char before (c ∷ s) = last_char (some c) s

match_here-lits :
    (alnum : ℕ → Bool) (w rest : Text) (is : List Item) (before : Option ℕ)
    → match_here alnum is (last_char before w) rest ≡ true
    → match_here alnum (lits w ++ is) before (w ++ rest) ≡ true
unfolding match_here lits
match_here-lits alnum [] rest is before h = h
match_here-lits alnum (c ∷ w) rest is before h =
    ground (arith, match_here-lits alnum w rest is (some c) h, (nat_beq_iff c c).1 refl)

search_from-append :
    (alnum : ℕ → Bool) (is : List Item) (before : Option ℕ) (s t : Text)
    → match_here alnum is (last_char before s) t ≡ true
    → search_from alnum is before (s ++ t) ≡ true
unfolding search_from
search_from-append alnum is before [] [] h = h
search_from-append alnum is before [] (c ∷ t) h = rw h
search_from-append alnum is before (c ∷ s) t h =
    ground (arith, search_from-append alnum is (some c) s t h)

last_char-word :
    (alnum : ℕ → Bool) (before : Option ℕ) (w : Text)
    → all (is_word alnum) w ≡ true
    → is_word? alnum before ≡ true
    → is_word? alnum (last_char before w) ≡ true
unfolding all
last_char-word alnum before [] h b = b
last_char-word alnum before (c ∷ w) h b =
    last_char-word alnum (some c) w (ground arith) (ground arith)

keyword_end :
    (alnum : ℕ → Bool) (c : ℕ) (w t : Text) (before : Option ℕ)
    → all (is_word alnum) (c ∷ w) ≡ true
    → is_word? alnum (first_char t) ≡ false
    → match_here alnum (boundary ∷ []) (last_char before (c ∷ w)) t ≡ true
unfolding match_here all
keyword_end alnum c w t before h e =
    rw (last_char-word alnum (some c) w (ground arith) (ground arith), e) refl

keyword_here :
    (alnum : ℕ → Bool) (c : ℕ) (w t : Text) (before : Option ℕ)
    → all (is_word alnum) (c ∷ w) ≡ true
    → is_word? alnum before ≡ false
    → is_word? alnum (first_char t) ≡ false
    → match_here alnum (keyword (c ∷ w)) before (c ∷ w ++ t) ≡ true
unfolding match_here all
keyword_here alnum c w t before h b e =
    let body : match_here alnum (lits (c ∷ w) ++ boundary ∷ []) before (c ∷ w ++ t) ≡ true =
      match_here-lits alnum (c ∷ w) t (boundary ∷ []) before (keyword_end alnum c w t before h e) in
    let k : is_word alnum c ≡ true = ground arith in rw (b, k) body

-- A keyword is found where it stands between characters that are no word characters.
pub search_from-keyword :
    (alnum : ℕ → Bool) (c : ℕ) (w s t : Text)
    → all (is_word alnum) (c ∷ w) ≡ true
    → is_word? alnum (last_char none s) ≡ false
    → is_word? alnum (first_char t) ≡ false
    → search_from alnum (keyword (c ∷ w)) none (s ++ (c ∷ w ++ t)) ≡ true
search_from-keyword alnum c w s t h before after =
    search_from-append alnum (keyword (c ∷ w)) none s (c ∷ w ++ t)
      (keyword_here alnum c w t (last_char none s) h before after)

-- A compiled pattern: one of the default ones, or an extra one with its text and its `search`.
pub data Compiled : Type 0 where
  default : List Item → Compiled
  extra : Text → (Text → Bool) → Compiled
