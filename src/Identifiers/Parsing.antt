-- ===== src/Identifiers/Parsing.antt =====
-- Reading back what the formatters write (protocol/identifiers.py).
use realtime_meeting_transla.Prelude.{
  ℕ, ◌+◌, ◌-◌, ◌*◌, ◌≡◌, ◌<◌, refl, ap, ◌∙◌, true, Option, some, [], ◌∷◌, ◌++◌, Text, show, length,
  All, text_eq, arith,
}
use realtime_meeting_transla.Identifiers.{
  padded, read_digits, match_ordinal, parse_ordinal, strip_prefix, is_known_prefix, at_end,
  format_stream_id, format_utterance_id, format_segment_id, format_speaker_turn_id,
  format_speaker_id, stream_prefix, utterance_prefix, segment_prefix, speaker_turn_prefix,
  speaker_prefix,
}
use realtime_meeting_transla.Identifiers.Digits.{
  IsDigit, value, value-padded, value-show, padded-IsDigit, show-IsDigit, show-nonempty,
  padded-nonempty,
}

strip_prefix-append : (p s : Text) → strip_prefix p (p ++ s) ≡ some s
unfolding strip_prefix
strip_prefix-append [] s = refl
strip_prefix-append (c ∷ p) s = ground (arith, strip_prefix-append p s)

-- `decimal` is Python's table of decimal digits; the ten of ASCII stand in it with their values.
module _ (decimal : ℕ → Option ℕ) (ascii : (c : ℕ) → IsDigit c → decimal c ≡ some (c - b'0')) where
  read_digits_lem : (v : ℕ) (s : Text) → All IsDigit s → read_digits decimal v s ≡ (value v s, [])
  unfolding read_digits value
  read_digits_lem v [] h = refl
  read_digits_lem v (c ∷ s) (hc, h) =
      rw (ascii c hc, read_digits) (read_digits_lem (v * 10 + (c - b'0')) s h)

  match_ordinal_lem :
      (s : Text) → 0 < length s → All IsDigit s → match_ordinal decimal s ≡ some (value 0 s)
  unfolding match_ordinal value at_end
  match_ordinal_lem [] l h = absurd (omega (arith, l))
  match_ordinal_lem (c ∷ s) l (hc, h) =
      rw (ascii c hc, match_ordinal, read_digits_lem (c - b'0') s h, at_end)
        (ap (λ v. some (value v s)) (omega arith))

  parse_ordinal_lem :
      (prefix s : Text)
      → is_known_prefix prefix ≡ true
      → 0 < length s
      → All IsDigit s
      → parse_ordinal decimal (prefix ++ s) prefix ≡ some (value 0 s)
  unfolding parse_ordinal
  parse_ordinal_lem prefix s known l h =
      rw (known, strip_prefix-append prefix s) (match_ordinal_lem s l h)

  -- Where the table of decimal digits gives the ten of ASCII their values, the identifier that
  -- each formatter writes is parsed back to its ordinal.
  pub parse_ordinal-format :
      (n : ℕ)
      → (parse_ordinal decimal (format_stream_id n) stream_prefix ≡ some n)
        × (parse_ordinal decimal (format_utterance_id n) utterance_prefix ≡ some n)
        × (parse_ordinal decimal (format_segment_id n) segment_prefix ≡ some n)
        × (parse_ordinal decimal (format_speaker_turn_id n) speaker_turn_prefix ≡ some n)
        × (parse_ordinal decimal (format_speaker_id n) speaker_prefix ≡ some n)
  unfolding format_stream_id format_utterance_id format_segment_id format_speaker_turn_id
      format_speaker_id is_known_prefix text_eq
  parse_ordinal-format n =
      let of_padded : (prefix : Text) (w : ℕ)
          → is_known_prefix prefix ≡ true
          → parse_ordinal decimal (prefix ++ padded w n) prefix ≡ some n =
        λ prefix w known.
          parse_ordinal_lem prefix (padded w n) known (padded-nonempty w n) (padded-IsDigit w n)
          ∙ ap some (value-padded w n) in
      (
        of_padded stream_prefix 4 refl,
        of_padded utterance_prefix 6 refl,
        of_padded segment_prefix 6 refl,
        of_padded speaker_turn_prefix 6 refl,
        parse_ordinal_lem speaker_prefix (show n) refl (show-nonempty n) (show-IsDigit n)
            ∙ ap some (value-show n),
      )
