-- ===== src/Version/Tests.antt =====
-- The properties of protocol/version.py at concrete texts.
use realtime_meeting_transla.Prelude.{
  ℕ, ◌≡◌, ◌↔◌, refl, arith, Bool, true, ◌&&◌, Option, none, some, [], ◌∷◌, Text, codes, show, leb,
  length, All, ◌==◌, if◌then◌else◌, not,
}
use realtime_meeting_transla.Prelude.Int.{ℤ, pos}
use realtime_meeting_transla.Identifiers.Digits.{
  IsDigit, value, value-show, show-IsDigit, show-nonempty,
}
use realtime_meeting_transla.Version.{version_text, parse_version}
use realtime_meeting_transla.Version.Parsing.{parse_version_iff}

all_digits : Text → Bool
all_digits [] = true
all_digits (c ∷ s) = leb b'0' c && leb c b'9' && all_digits s

-- An `int` that takes ASCII digits only.
abbrev ascii_int : Text → Option ℤ
ascii_int s = if all_digits s && not (length s == 0) then some (pos (value 0 s)) else none

all_digits-IsDigit : (s : Text) → All IsDigit s → all_digits s ≡ true
unfolding all_digits
all_digits-IsDigit [] h = refl
all_digits-IsDigit (c ∷ s) (hc, h) = ground (arith, all_digits-IsDigit s h)

ascii_int-show : (n : ℕ) → ascii_int (show n) ≡ some (pos n)
ascii_int-show n =
    ground (arith, all_digits-IsDigit (show n) (show-IsDigit n), show-nonempty n, value-show n)

parse_version_iff_example :
    (parse_version ascii_int (codes "01.0") ≡ some (record { major = 1; minor = 0 }))
    ↔ (codes "01.0" ≡ version_text (record { major = 1; minor = 0 }))
parse_version_iff_example =
    parse_version_iff ascii_int ascii_int-show (codes "01.0") (record { major = 1; minor = 0 })
