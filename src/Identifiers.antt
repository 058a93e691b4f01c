-- ===== src/Identifiers.antt =====
-- protocol/identifiers.py: session-scoped identifiers and their allocators. Ordinals are counted
-- from 0, so they are natural numbers. CPython's limit of 4300 digits on `int(text)` is left out.
mod SessionId
mod Tests
pub mod Digits
pub mod Allocation
pub mod Parsing
pub mod Safety
use realtime_meeting_transla.Prelude.{
  ℕ, zero, suc, ◌+◌, ◌-◌, ◌*◌, Bool, true, false, ◌||◌, Option, none, some, List, [], ◌∷◌, ◌++◌,
  Text, codes, text_eq, show, length, if◌then◌else◌, leb, ◌==◌,
}
unfoldable pub use SessionId.{
  is_hex, match_hex, match_dash, at_end, match_groups, is_valid_session_id,
}
use realtime_meeting_transla.Limits.{max_identifier_chars}

abbrev pub stream_prefix : Text
stream_prefix = codes "stream-"

abbrev pub utterance_prefix : Text
utterance_prefix = codes "utt-"

abbrev pub segment_prefix : Text
segment_prefix = codes "seg-"

abbrev pub speaker_turn_prefix : Text
speaker_turn_prefix = codes "spk-turn-"

abbrev pub speaker_prefix : Text
speaker_prefix = codes "speaker-"

abbrev pub stream_pad : ℕ
stream_pad = 4

abbrev pub ordinal_pad : ℕ
ordinal_pad = 6

abbrev pub speaker_unknown : Text
speaker_unknown = codes "speaker-unknown"

abbrev pub speaker_multiple : Text
speaker_multiple = codes "speaker-multiple"

unfoldable pub zeros : ℕ → Text → Text
zeros zero s = s
zeros (suc n) s = b'0' ∷ zeros n s

-- `f"{ordinal:0{width}d}"`
unfoldable pub padded : ℕ → ℕ → Text
padded width ordinal = let s = show ordinal in zeros (width - length s) s

unfoldable pub format_stream_id : ℕ → Text
format_stream_id ordinal = stream_prefix ++ padded stream_pad ordinal

unfoldable pub format_utterance_id : ℕ → Text
format_utterance_id ordinal = utterance_prefix ++ padded ordinal_pad ordinal

unfoldable pub format_segment_id : ℕ → Text
format_segment_id ordinal = segment_prefix ++ padded ordinal_pad ordinal

unfoldable pub format_speaker_turn_id : ℕ → Text
format_speaker_turn_id ordinal = speaker_turn_prefix ++ padded ordinal_pad ordinal

unfoldable pub format_speaker_id : ℕ → Text
format_speaker_id ordinal = speaker_prefix ++ show ordinal

unfoldable pub is_reserved_speaker_label : Text → Bool
is_reserved_speaker_label value = text_eq value speaker_unknown || text_eq value speaker_multiple

-- `false` is the `ValueError`.
unfoldable pub validate_identifier_length : Text → Bool
validate_identifier_length value = leb (length value) max_identifier_chars

pub record OrdinalAllocator : Type 0 where
  pub prefix : Text
  pub next : ℕ

unfoldable pub pad_of : Text → ℕ
pad_of prefix = if text_eq prefix stream_prefix then stream_pad else ordinal_pad

-- `allocate`: the identifier, and the allocator afterwards.
unfoldable pub allocate : OrdinalAllocator → Text × OrdinalAllocator
unfolding pad_of
allocate a =
    let ordinal = a.next in
    (
      if text_eq a.prefix speaker_prefix
          then format_speaker_id (suc ordinal)
          else a.prefix ++ padded (pad_of a.prefix) ordinal,
      record { prefix = a.prefix; next = suc ordinal },
    )

unfoldable pub new_allocator : Text → OrdinalAllocator
new_allocator prefix = record { prefix = prefix; next = 0 }

-- The five allocators of one session.
pub record SessionIdentifiers : Type 0 where
  pub session_id : Text
  pub streams : OrdinalAllocator
  pub utterances : OrdinalAllocator
  pub segments : OrdinalAllocator
  pub speaker_turns : OrdinalAllocator
  pub speakers : OrdinalAllocator

-- `SessionIdentifiers(session_id)`; `none` is the `ValueError` of `__post_init__`.
unfoldable pub session_identifiers : Text → Option SessionIdentifiers
unfolding new_allocator
session_identifiers session_id =
    if is_valid_session_id session_id
    then some (record {
      session_id = session_id;
      streams = new_allocator stream_prefix;
      utterances = new_allocator utterance_prefix;
      segments = new_allocator segment_prefix;
      speaker_turns = new_allocator speaker_turn_prefix;
      speakers = new_allocator speaker_prefix;
    })
    else none

-- The text behind a prefix.
unfoldable pub strip_prefix : Text → Text → Option Text
strip_prefix [] s = some s
strip_prefix (c ∷ prefix) [] = none
strip_prefix (c ∷ prefix) (d ∷ s) = elim (c == d) [ true ↦ strip_prefix prefix s | false ↦ none ]

-- The keys of `_ORDINAL_PATTERNS`.
unfoldable pub is_known_prefix : Text → Bool
is_known_prefix prefix =
    text_eq prefix stream_prefix
    || text_eq prefix utterance_prefix
    || text_eq prefix segment_prefix
    || text_eq prefix speaker_turn_prefix
    || text_eq prefix speaker_prefix

-- The digits of a regular expression's `\d` are those of every script: `decimal` is Python's table.
module _ (decimal : ℕ → Option ℕ) where
  -- the value so far, and the text behind the digits
  unfoldable pub read_digits : ℕ → Text → ℕ × Text
  read_digits value [] = (value, [])
  read_digits value (c ∷ s) = elim (decimal c) [
    | some d ↦ read_digits (value * 10 + d) s
    | none ↦ (value, c ∷ s)
  ]

  -- `(\d+)$`, whose `$` also matches before a newline that ends the text
  unfoldable pub match_ordinal : Text → Option ℕ
  unfolding read_digits
  match_ordinal [] = none
  match_ordinal (c ∷ s) = elim (decimal c) [
    | some d ↦ let (value, rest) = read_digits d s in if at_end rest then some value else none
    | none ↦ none
  ]

  -- `none` is the `ValueError`.
  unfoldable pub parse_ordinal : Text → Text → Option ℕ
  unfolding match_ordinal strip_prefix
  parse_ordinal identifier prefix =
      if is_known_prefix prefix
      then elim (strip_prefix prefix identifier) [ some s ↦ match_ordinal s | none ↦ none ]
      else none
