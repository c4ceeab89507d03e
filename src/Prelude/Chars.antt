-- ===== src/Prelude/Chars.antt =====
-- The methods of Python's `str` that the program calls. Case mapping is that of ASCII: the
-- program applies it to host names, HTTP methods, header names and licence names.
use Prim.Native.Nat.{ℕ, ◌+◌, ◌-◌}
use Prim.Native.Char.{code}
use Prim.Native.String.{String}
use mathlib.Core.Path.{◌≡◌, refl, ap, ap₂}
use mathlib.Core.Logic.{inl, inr}
use mathlib.Core.Bool.{Bool, true, false, ◌&&◌, ◌||◌}
use mathlib.Core.List.{List, [], ◌∷◌, ◌++◌}
use mathlib.Core.Option.{Option, none, some}
use native.Mathlib.Omega.{arith}
use security_tool.Prelude.Tests.{
  leb, nat_beq, if◌then◌else◌, Bool-cases, Text, text_beq, text_beq_iff,
}

-- The code points of a literal.
abbrev pub codes : String → Text
codes String.[] = []
codes (String.◌∷◌ c s) = code c ∷ codes s

unfoldable pub lower_char : ℕ → ℕ
lower_char c = if leb b'A' c && leb c b'Z' then c + 32 else c

unfoldable pub upper_char : ℕ → ℕ
upper_char c = if leb b'a' c && leb c b'z' then c - 32 else c

-- s.lower()
unfoldable pub lower : Text → Text
unfolding lower_char
lower [] = []
lower (c ∷ s) = lower_char c ∷ lower s

-- s.upper()
unfoldable pub upper : Text → Text
unfolding upper_char
upper [] = []
upper (c ∷ s) = upper_char c ∷ upper s

-- s.startswith(prefix)
unfoldable pub starts_with : Text → Text → Bool
starts_with s [] = true
starts_with [] (p ∷ ps) = false
starts_with (c ∷ s) (p ∷ ps) = nat_beq c p && starts_with s ps

-- s.endswith(suffix)
unfoldable pub ends_with : Text → Text → Bool
unfolding text_beq
ends_with [] suffix = text_beq [] suffix
ends_with (c ∷ s) suffix = text_beq (c ∷ s) suffix || ends_with s suffix

-- sub in s
unfoldable pub has_sub : Text → Text → Bool
unfolding starts_with
has_sub [] sub = starts_with [] sub
has_sub (c ∷ s) sub = starts_with (c ∷ s) sub || has_sub s sub

-- s.lstrip(c), for the characters that satisfy `p`
unfoldable pub strip_left : (ℕ → Bool) → Text → Text
strip_left p [] = []
strip_left p (c ∷ s) = if p c then strip_left p s else c ∷ s

abbrev pub drop_blank : (ℕ → Bool) → ℕ → Text → Text
drop_blank p c [] = if p c then [] else c ∷ []
drop_blank p c (d ∷ s) = c ∷ d ∷ s

-- s.rstrip(c), for the characters that satisfy `p`
unfoldable pub strip_right : (ℕ → Bool) → Text → Text
strip_right p [] = []
strip_right p (c ∷ s) = drop_blank p c (strip_right p s)

abbrev pub is_dot : ℕ → Bool
is_dot c = nat_beq c b'.'

-- White space: the ASCII characters that `str.strip()` removes.
abbrev pub is_space : ℕ → Bool
is_space c = nat_beq c 32 || leb 9 c && leb c 13 || leb 28 c && leb c 31

-- s.strip()
unfoldable pub strip : Text → Text
unfolding strip_left strip_right
strip s = strip_right is_space (strip_left is_space s)

-- The text before the first `c`, and the text after it if there is one: s.split(c, 1).
unfoldable pub split_once : ℕ → Text → Text × Option Text
split_once c [] = ([], none)
split_once c (d ∷ s) =
    if nat_beq d c then ([], some s) else (d ∷ (split_once c s).0, (split_once c s).1)

-- s.split(c)
unfoldable pub split_from : ℕ → Text → Text → List Text
split_from c cur [] = cur ∷ []
split_from c cur (d ∷ s) =
    let closed = cur ∷ split_from c [] s in
    let longer = split_from c (cur ++ d ∷ []) s in if nat_beq d c then closed else longer

unfoldable pub split : ℕ → Text → List Text
unfolding split_from
split c s = split_from c [] s

-- sep.join(parts)
unfoldable pub join : Text → List Text → Text
join sep [] = []
join sep (p ∷ []) = p
join sep (p ∷ q ∷ ps) = p ++ sep ++ join sep (q ∷ ps)

-- x or default, on texts
unfoldable pub or_text : Text → Text → Text
or_text [] d = d
or_text (c ∷ s) d = c ∷ s

upper_char_idem : (c : ℕ) → upper_char (upper_char c) ≡ upper_char c
unfolding upper_char
upper_char_idem c = ground arith

-- `upper` is idempotent: a caller that has already called it changes nothing.
pub upper_idem : (s : Text) → upper (upper s) ≡ upper s
unfolding upper
upper_idem [] = refl
upper_idem (c ∷ s) = ap₂ ◌∷◌ (upper_char_idem c) (upper_idem s)

lower_char_idem : (c : ℕ) → lower_char (lower_char c) ≡ lower_char c
unfolding lower_char
lower_char_idem c = ground arith

pub lower_idem : (s : Text) → lower (lower s) ≡ lower s
unfolding lower
lower_idem [] = refl
lower_idem (c ∷ s) = ap₂ ◌∷◌ (lower_char_idem c) (lower_idem s)

-- `endswith` holds exactly of the texts that end in the suffix.
pub ends_with-append : (p s : Text) → ends_with (p ++ s) s ≡ true
unfolding ends_with text_beq
ends_with-append [] [] = refl
ends_with-append [] (c ∷ s) = ground (arith, text_beq_iff (c ∷ s) (c ∷ s))
ends_with-append (d ∷ p) s = ground (arith, ends_with-append p s)

pub ends_with_split : (s suffix : Text) → ends_with s suffix ≡ true → (p : Text) × (s ≡ p ++ suffix)
unfolding ends_with
ends_with_split [] suffix h = ([], (text_beq_iff [] suffix).0 h)
ends_with_split (c ∷ s) suffix h = elim (Bool-cases (text_beq (c ∷ s) suffix)) [
  | inl e ↦ ([], (text_beq_iff (c ∷ s) suffix).0 e)
  | inr e ↦
      let (p, q) = ends_with_split s suffix (ground arith) in (c ∷ p, ap (λ (t : Text). c ∷ t) q)
]
