-- ===== src/Identifiers/SessionId.antt =====
-- protocol/identifiers.py: `SESSION_ID_PATTERN` and `is_valid_session_id`. The pattern is matched
-- group by group; `$` also matches before a newline that ends the text, as in Python's `re`.
use realtime_meeting_transla.Prelude.{
  ℕ, zero, suc, Bool, true, false, ◌&&◌, ◌||◌, Option, none, some, [], ◌∷◌, Text, leb, ◌==◌,
  if◌then◌else◌,
}

-- `[0-9a-f]`
unfoldable pub is_hex : ℕ → Bool
is_hex c = (leb b'0' c && leb c b'9') || (leb b'a' c && leb c b'f')

-- `[0-9a-f]{n}` at the front of a text: what is left behind it
unfoldable pub match_hex : ℕ → Text → Option Text
match_hex zero s = some s
match_hex (suc n) [] = none
match_hex (suc n) (c ∷ s) = elim (is_hex c) [ true ↦ match_hex n s | false ↦ none ]

-- `-`
unfoldable pub match_dash : Text → Option Text
match_dash [] = none
match_dash (c ∷ s) = if c == b'-' then some s else none

-- `$`
unfoldable pub at_end : Text → Bool
at_end [] = true
at_end (c ∷ []) = c == 10
at_end (c ∷ d ∷ s) = false

infixl 5 ◌>>=◌
abbrev pub ◌>>=◌ : Option Text → (Text → Option Text) → Option Text
none >>= f = none
some s >>= f = f s

unfoldable pub match_groups : Text → Option Text
unfolding is_hex match_hex match_dash
match_groups s = do
  s₁ ← match_hex 8 s
  s₂ ← match_dash s₁
  s₃ ← match_hex 4 s₂
  s₄ ← match_dash s₃
  s₅ ← match_hex 4 s₄
  s₆ ← match_dash s₅
  s₇ ← match_hex 4 s₆
  s₈ ← match_dash s₇
  match_hex 12 s₈

unfoldable pub is_valid_session_id : Text → Bool
unfolding match_groups at_end
is_valid_session_id s = elim (match_groups s) [ none ↦ false | some rest ↦ at_end rest ]
