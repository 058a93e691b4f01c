-- ===== src/Events/Fields.antt =====
-- protocol/events.py: the constrained field types, the envelope and the shared payload structures.
-- A validator `is_valid_…` is true where pydantic accepts the field or record.
use realtime_meeting_transla.Prelude.{
  ℕ, ◌^◌, Bool, true, ◌&&◌, ◌||◌, Option, none, some, List, [], ◌∷◌, Text, length, leb, ◌==◌,
}
use realtime_meeting_transla.Prelude.Int.{ℤ}
use realtime_meeting_transla.Enums.{SegmentOperation, GapClass, Capability, CapabilityState}
use realtime_meeting_transla.Limits.{max_identifier_chars, max_text_chars, max_json_safe_sample}
use realtime_meeting_transla.Identifiers.{is_valid_session_id}

-- A Python `float`, by the bit pattern of its IEEE-754 double. The protocol carries floats and
-- never computes with them.
pub record Float : Type 0 where
  pub bits : ℕ

-- `Identifier`
unfoldable pub is_valid_identifier : Text → Bool
is_valid_identifier s = leb (length s) max_identifier_chars

-- `Text`
unfoldable pub is_valid_text : Text → Bool
is_valid_text s = leb (length s) max_text_chars

-- `SampleOffset`; a natural number is at least 0
unfoldable pub is_valid_sample_offset : ℕ → Bool
is_valid_sample_offset n = leb n max_json_safe_sample

-- `Confidence`, 0.0 ≤ x ≤ 1.0: the doubles of clear sign up to 1.0 are ordered as their bit
-- patterns, and minus zero is equal to zero.
unfoldable pub is_valid_confidence : Float → Bool
is_valid_confidence x = leb x.bits 0x3ff0_0000_0000_0000 || x.bits == 2 ^ 63

-- `T | None`
unfoldable pub is_valid_optional {ℓ} : {A : Type ℓ} → (A → Bool) → Option A → Bool
is_valid_optional p none = true
is_valid_optional p (some a) = p a

-- `list[T]`
unfoldable pub is_valid_list {ℓ} : {A : Type ℓ} → (A → Bool) → List A → Bool
is_valid_list p [] = true
is_valid_list p (a ∷ l) = p a && is_valid_list p l

-- The envelope; `event_type` is fixed by the class of an event.
pub record Envelope : Type 0 where
  pub protocol_version : Text
  pub session_id : Text
  pub event_id : Text
  pub sent_at_utc : Text

unfoldable pub is_valid_envelope : Envelope → Bool
is_valid_envelope e =
    is_valid_identifier e.session_id
    && is_valid_identifier e.event_id
    && is_valid_session_id e.session_id

pub record SpeakerCandidate : Type 0 where
  pub speaker_id : Text
  pub confidence : Float

unfoldable pub is_valid_candidate : SpeakerCandidate → Bool
is_valid_candidate c = is_valid_identifier c.speaker_id && is_valid_confidence c.confidence

pub record OverlapInterval : Type 0 where
  pub start_sample : ℕ
  pub end_sample : ℕ

unfoldable pub is_valid_interval : OverlapInterval → Bool
is_valid_interval i = is_valid_sample_offset i.start_sample && is_valid_sample_offset i.end_sample

pub record DecodeEvidence : Type 0 where
  pub avg_logprob : Option Float
  pub no_speech_prob : Option Float
  pub compression_ratio : Option Float
  pub speech_ratio : Option Float
  pub temperature_used : Option Float
  pub peak : Option Float
  pub rms : Option Float
  pub clipping_ratio : Option Float
  pub zero_ratio : Option Float
  pub synthetic_samples : ℤ

pub record RevisionVector : Type 0 where
  pub content_revision : ℕ
  pub language_revision : ℕ
  pub speaker_revision : ℕ
  pub translation_revision : ℕ
  pub translated_from_content_revision : Option ℕ
  pub translated_from_language_revision : Option ℕ

pub record SegmentLineage : Type 0 where
  pub operation : SegmentOperation
  pub parent_segment_ids : List Text

unfoldable pub is_valid_lineage : SegmentLineage → Bool
is_valid_lineage l = is_valid_list is_valid_identifier l.parent_segment_ids

pub record GapCount : Type 0 where
  pub gap_class : GapClass
  pub count : ℕ
  pub total_samples : ℕ

pub record CapabilityEntry : Type 0 where
  pub capability : Capability
  pub state : CapabilityState
  pub detail : Option Text
