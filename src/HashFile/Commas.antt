-- ===== src/HashFile/Commas.antt =====
-- Numbers with commas between their digits (tools/hash_file.py).
use realtime_meeting_transla.Prelude.{
  ℕ, ◌%◌, ◌≡◌, refl, ap, ◌∙◌, false, not, ◌&&◌, [], ◌∷◌, Text, show, arith, Bool-cases, inl, inr,
  ◌==◌, All, length, filterb,
}
use realtime_meeting_transla.Identifiers.Digits.{IsDigit, value, value-show, show-IsDigit}
use realtime_meeting_transla.HashFile.{commas, show_commas}

-- The text without its commas.
abbrev without_commas : Text → Text
without_commas s = filterb (λ c. not (c == b',')) s

digit_no_comma : (c : ℕ) → IsDigit c → (c == b',') ≡ false
digit_no_comma c h = ground arith

without-commas : (s : Text) → All IsDigit s → without_commas (commas s) ≡ s
unfolding commas
without-commas [] h = refl
without-commas (c ∷ s) h =
    let plain = digit_no_comma c h.0 in
    elim (Bool-cases (length s % 3 == 0 && not (length s == 0))) [
      | inl here ↦ rw (here, plain) (ap (◌∷◌ c) (without-commas s h.1))
      | inr other ↦ rw (other, plain) (ap (◌∷◌ c) (without-commas s h.1))
    ]

-- The number that a text with commas shows is read back when the commas are left out.
value-show_commas : (n : ℕ) → value 0 (without_commas (show_commas n)) ≡ n
unfolding show_commas
value-show_commas n = ap (value 0) (without-commas (show n) (show-IsDigit n)) ∙ value-show n
