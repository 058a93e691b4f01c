-- ===== src/Identifiers/Tests.antt =====
-- The properties of protocol/identifiers.py at concrete identifiers.
use realtime_meeting_transla.Prelude.{
  ℕ, ◌-◌, ◌≡◌, ◌≢◌, ◌⊎◌, refl, arith, true, Option, none, some, [], ◌∷◌, ◌++◌, Text, codes, length,
  All, if◌then◌else◌, leb, show, show_rounds,
}
use realtime_meeting_transla.Identifiers.{
  parse_ordinal, format_stream_id, format_utterance_id, format_segment_id, format_speaker_turn_id,
  format_speaker_id, stream_prefix, utterance_prefix, segment_prefix, speaker_turn_prefix,
  speaker_prefix, new_allocator, is_valid_session_id, match_groups, match_hex, match_dash, is_hex,
  at_end, padded, zeros,
}
use realtime_meeting_transla.Identifiers.Digits.{IsDigit}
use realtime_meeting_transla.Identifiers.Parsing.{parse_ordinal-format}
use realtime_meeting_transla.Identifiers.Allocation.{nth_identifier, nth_identifier_distinct}
use realtime_meeting_transla.Identifiers.Safety.{IsIdChar, is_valid_session_id-chars}

stream_id : format_stream_id 42 ≡ codes "stream-0042"
unfolding format_stream_id padded zeros show show_rounds
stream_id = refl

-- The ten digits of ASCII, and no others.
abbrev ascii_table : ℕ → Option ℕ
ascii_table c = if leb b'0' c then (if leb c b'9' then some (c - b'0') else none) else none

ascii_table-IsDigit : (c : ℕ) → IsDigit c → ascii_table c ≡ some (c - b'0')
ascii_table-IsDigit c h = ground arith

parse_ordinal-format_example :
    (parse_ordinal ascii_table (format_stream_id 42) stream_prefix ≡ some 42)
    × (parse_ordinal ascii_table (format_utterance_id 42) utterance_prefix ≡ some 42)
    × (parse_ordinal ascii_table (format_segment_id 42) segment_prefix ≡ some 42)
    × (parse_ordinal ascii_table (format_speaker_turn_id 42) speaker_turn_prefix ≡ some 42)
    × (parse_ordinal ascii_table (format_speaker_id 42) speaker_prefix ≡ some 42)
parse_ordinal-format_example = parse_ordinal-format ascii_table ascii_table-IsDigit 42

differ : ◌≢◌ {A = ℕ} 0 9
differ = omega arith

nth_identifier_distinct_example :
    nth_identifier 0 (new_allocator speaker_prefix)
    ≢ nth_identifier 9 (new_allocator speaker_prefix)
nth_identifier_distinct_example = nth_identifier_distinct (new_allocator speaker_prefix) 0 9 differ

abbrev uuid : Text
uuid = codes "6f9619ff-8b86-4d11-b42d-00cf4fc964ff"

-- A newline at the end is accepted too.
with_newline : is_valid_session_id (uuid ++ 10 ∷ []) ≡ true
unfolding is_valid_session_id match_groups match_hex match_dash is_hex at_end
with_newline = refl

is_valid_session_id-chars_example :
    (t : Text) × (length t ≡ 36)
    × All IsIdChar t
    × ((uuid ++ 10 ∷ [] ≡ t) ⊎ (uuid ++ 10 ∷ [] ≡ t ++ 10 ∷ []))
is_valid_session_id-chars_example = is_valid_session_id-chars (uuid ++ 10 ∷ []) with_newline
