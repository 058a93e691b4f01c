-- ===== src/Version.antt =====
-- protocol/version.py: the protocol version and its parser.
mod Tests
pub mod Parsing
use realtime_meeting_transla.Prelude.{
  ℕ, suc, Bool, true, false, ◌&&◌, ◌||◌, not, Option, none, some, List, [], ◌∷◌, ◌++◌, Text, show,
  text_eq, longer, ltb, ◌==◌, if◌then◌else◌,
}
use realtime_meeting_transla.Prelude.Int.{ℤ, pos, negsuc, pos_part, ltb_ℤ}

abbrev pub protocol_major : ℕ
protocol_major = 1

abbrev pub protocol_minor : ℕ
protocol_minor = 0

-- A version that `parse_version` returns has no negative part.
pub record Version : Type 0 where
  pub major : ℕ
  pub minor : ℕ

-- `Version.__str__`
unfoldable pub version_text : Version → Text
version_text v = show v.major ++ b'.' ∷ show v.minor

-- `str(n)`
unfoldable pub show_ℤ : ℤ → Text
show_ℤ (pos n) = show n
show_ℤ (negsuc n) = b'-' ∷ show (suc n)

-- `text.split(".")`: the parts between the dots, at least one.
unfoldable pub split_dots : Text → List Text
unfolding longer
split_dots [] = [] ∷ []
split_dots (c ∷ s) = let parts = split_dots s in if c == b'.' then [] ∷ parts else longer c parts

-- `int_of` is Python's `int(text)`, which raises `ValueError` or returns an integer.
module _ (int_of : Text → Option ℤ) where
  -- the checks behind the two conversions
  unfoldable pub check_parts : Text → Text → ℤ → ℤ → Option Version
  check_parts a b major minor =
      if ltb_ℤ major (pos 0) || ltb_ℤ minor (pos 0)
      then none
      else if not (text_eq a (show_ℤ major)) || not (text_eq b (show_ℤ minor))
      then none
      else some (record { major = pos_part major; minor = pos_part minor })

  unfoldable pub parse_parts : Text → Text → Option Version
  unfolding check_parts
  parse_parts a b = elim (int_of a) [
    | none ↦ none
    | some major ↦ elim (int_of b) [ none ↦ none | some minor ↦ check_parts a b major minor ]
  ]

  -- `len(parts) != 2`
  unfoldable pub parse_list : List Text → Option Version
  unfolding parse_parts
  parse_list [] = none
  parse_list (a ∷ []) = none
  parse_list (a ∷ b ∷ []) = parse_parts a b
  parse_list (a ∷ b ∷ c ∷ parts) = none

  -- `none` is the `ValueError`.
  unfoldable pub parse_version : Text → Option Version
  parse_version text = parse_list (split_dots text)

unfoldable pub is_major_compatible : Version → Bool
is_major_compatible other = other.major == protocol_major

unfoldable pub is_forward_minor : Version → Bool
is_forward_minor other = other.major == protocol_major && ltb protocol_minor other.minor
