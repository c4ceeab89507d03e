-- ===== src/SurfaceMapper.antt =====
-- packages/crawler/src/sentinel_crawler/surface_mapper.py: the template of a path.
pub mod Laws
mod Tests
use security_tool.Prelude.{
  ℕ, zero, suc, Bool, true, false, ◌&&◌, ◌||◌, not, ◌≡◌, List, [], ◌∷◌, ◌++◌, map, Text, codes, all,
  leb, nat_beq, ◌==◌, text_eq, split, split_from, join, contains, if◌then◌else◌, length, arith,
  Bool-cases, inl, inr, All, nat_eq,
}
use security_tool.Url.{is_digit}

abbrev pub is_hex : ℕ → Bool
is_hex c = is_digit c || leb b'a' c && leb c b'f' || leb b'A' c && leb c b'F'

abbrev is_empty : Text → Bool
is_empty [] = true
is_empty (c ∷ s) = false

-- `^\d+$` up to the end, for the ASCII digits.
abbrev pub is_numeric : Text → Bool
is_numeric s = not (is_empty s) && all is_digit s

-- `^[0-9a-fA-F]{8}-...{12}$` up to the end.
abbrev pub is_uuid : Text → Bool
is_uuid s =
    (map (λ p. length p) (split b'-' s) == 8 ∷ 4 ∷ 4 ∷ 4 ∷ 12 ∷ [])
    && all (all is_hex) (split b'-' s)

-- `^[0-9a-fA-F]{16,}$` up to the end.
abbrev pub is_opaque : Text → Bool
is_opaque s = leb 16 (length s) && all is_hex s

-- `$` also matches before a line end that is the last character.
unfoldable pub drop_newline : Text → Text
drop_newline [] = []
drop_newline (c ∷ []) = if nat_beq c 10 then [] else c ∷ []
drop_newline (c ∷ d ∷ s) = c ∷ drop_newline (d ∷ s)

abbrev pub is_id : Text → Bool
is_id s = is_numeric s || is_uuid s || is_opaque s

abbrev pub placeholder : Text
placeholder = codes "{id}"

-- What one of the three patterns matches.
unfoldable pub looks_like_id : Text → Bool
unfolding drop_newline all split
looks_like_id s = is_id s || is_id (drop_newline s)

-- `_normalize_segment`
unfoldable pub normalize_segment : Text → Text
normalize_segment s = if looks_like_id s then placeholder else s

unfoldable pub normalize_path : Text → Text
normalize_path path = join (b'/' ∷ []) (map normalize_segment (split b'/' path))
