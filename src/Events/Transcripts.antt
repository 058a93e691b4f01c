-- ===== src/Events/Transcripts.antt =====
-- protocol/events.py: the events that carry segment state, and their validators.
use realtime_meeting_transla.Prelude.{
  ℕ, Bool, true, false, not, ◌&&◌, Option, none, some, List, [], ◌∷◌, Text,
}
use realtime_meeting_transla.Prelude.Dict.{member}
use realtime_meeting_transla.Enums.{
  LanguageCode, LanguageStatus, AsrLanguageMode, SegmentStatus, SpeakerStatus, SpeakerOperation,
  is_terminal_asr_outcome,
}
use realtime_meeting_transla.Events.Fields.{
  Float, Envelope, SegmentLineage, SpeakerCandidate, OverlapInterval, DecodeEvidence,
  is_valid_envelope, is_valid_identifier, is_valid_text, is_valid_sample_offset,
  is_valid_confidence, is_valid_optional, is_valid_list, is_valid_lineage, is_valid_candidate,
  is_valid_interval,
}

-- `status` is always PARTIAL here, so it is no field.
pub record TranscriptPartial : Type 0 where
  pub envelope : Envelope
  pub utterance_id : Text
  pub segment_id : Text
  pub lineage : Option SegmentLineage
  pub content_revision : ℕ
  pub stable_text : Text
  pub unstable_text : Text
  pub start_sample : ℕ
  pub end_sample : ℕ
  pub language_id : Option LanguageCode
  pub language_status : LanguageStatus
  pub language_revision : ℕ
  pub asr_language_mode : AsrLanguageMode
  pub primary_speaker_id : Option Text
  pub speaker_status : SpeakerStatus
  pub speaker_revision : ℕ

unfoldable pub is_valid_partial : TranscriptPartial → Bool
is_valid_partial e =
    is_valid_envelope e.envelope
    && is_valid_identifier e.utterance_id
    && is_valid_identifier e.segment_id
    && is_valid_optional is_valid_lineage e.lineage
    && is_valid_text e.stable_text
    && is_valid_text e.unstable_text
    && is_valid_sample_offset e.start_sample
    && is_valid_sample_offset e.end_sample
    && is_valid_optional is_valid_identifier e.primary_speaker_id

-- `TranscriptFinal`, and `TranscriptRevised` which only changes the event type
pub record TranscriptFinal : Type 0 where
  pub envelope : Envelope
  pub utterance_id : Text
  pub segment_id : Text
  pub lineage : Option SegmentLineage
  pub content_revision : ℕ
  pub status : SegmentStatus
  pub text : Text
  pub start_sample : ℕ
  pub end_sample : ℕ
  pub language_id : Option LanguageCode
  pub language_status : LanguageStatus
  pub language_revision : ℕ
  pub primary_speaker_id : Option Text
  pub speaker_status : SpeakerStatus
  pub speaker_revision : ℕ
  pub speaker_candidates : List SpeakerCandidate
  pub overlap : Bool
  pub overlap_intervals : List OverlapInterval
  pub evidence : Option DecodeEvidence
  pub intersects_gap : Bool

unfoldable pub is_valid_final : TranscriptFinal → Bool
is_valid_final e =
    is_valid_envelope e.envelope
    && is_valid_identifier e.utterance_id
    && is_valid_identifier e.segment_id
    && is_valid_optional is_valid_lineage e.lineage
    && is_valid_text e.text
    && is_valid_sample_offset e.start_sample
    && is_valid_sample_offset e.end_sample
    && is_valid_optional is_valid_identifier e.primary_speaker_id
    && is_valid_list is_valid_candidate e.speaker_candidates
    && is_valid_list is_valid_interval e.overlap_intervals
    && is_terminal_asr_outcome e.status

pub record LanguageUpdated : Type 0 where
  pub envelope : Envelope
  pub segment_id : Text
  pub language_revision : ℕ
  pub language_id : Option LanguageCode
  pub language_status : LanguageStatus
  pub speechbrain_confidence : Option Float
  pub whisper_language : Option LanguageCode
  pub disagreement : Bool

unfoldable pub is_valid_language : LanguageUpdated → Bool
is_valid_language e =
    is_valid_envelope e.envelope
    && is_valid_identifier e.segment_id
    && is_valid_optional is_valid_confidence e.speechbrain_confidence

pub record SpeakerUpdated : Type 0 where
  pub envelope : Envelope
  pub operation : SpeakerOperation
  pub speaker_revision : ℕ
  pub segment_id : Option Text
  pub primary_speaker_id : Option Text
  pub speaker_status : SpeakerStatus
  pub speaker_candidates : List SpeakerCandidate
  pub from_speaker_ids : List Text
  pub to_speaker_id : Option Text

-- A merge of `sources` into `target` names a source, a target, and no target among the sources.
unfoldable pub is_valid_merge : List Text → Option Text → Bool
is_valid_merge [] target = false
is_valid_merge (x ∷ sources) none = false
is_valid_merge (x ∷ sources) (some target) = not (member target (x ∷ sources))

-- `_merge_needs_a_target`
unfoldable pub merge_needs_a_target : SpeakerUpdated → Bool
unfolding is_valid_merge
merge_needs_a_target e = elim e.operation [
  | SpeakerOperation.merge ↦ is_valid_merge e.from_speaker_ids e.to_speaker_id
  | _ ↦ true
]

unfoldable pub is_valid_speaker : SpeakerUpdated → Bool
is_valid_speaker e =
    is_valid_envelope e.envelope
    && is_valid_optional is_valid_identifier e.segment_id
    && is_valid_optional is_valid_identifier e.primary_speaker_id
    && is_valid_list is_valid_candidate e.speaker_candidates
    && is_valid_list is_valid_identifier e.from_speaker_ids
    && is_valid_optional is_valid_identifier e.to_speaker_id
    && merge_needs_a_target e

pub record TranslationStarted : Type 0 where
  pub envelope : Envelope
  pub segment_id : Text
  pub source_language : LanguageCode
  pub target_language : LanguageCode

unfoldable pub is_valid_translation_started : TranslationStarted → Bool
is_valid_translation_started e = is_valid_envelope e.envelope && is_valid_identifier e.segment_id

pub record TranslationFinal : Type 0 where
  pub envelope : Envelope
  pub segment_id : Text
  pub translation_revision : ℕ
  pub translated_from_content_revision : ℕ
  pub translated_from_language_revision : ℕ
  pub source_language : LanguageCode
  pub target_language : LanguageCode
  pub text : Text

unfoldable pub is_valid_translation_final : TranslationFinal → Bool
is_valid_translation_final e =
    is_valid_envelope e.envelope && is_valid_identifier e.segment_id && is_valid_text e.text

pub record TranslationFailed : Type 0 where
  pub envelope : Envelope
  pub segment_id : Text
  pub translation_revision : ℕ
  pub translated_from_content_revision : ℕ
  pub translated_from_language_revision : ℕ
  pub reason : Text
  pub retryable : Bool

unfoldable pub is_valid_translation_failed : TranslationFailed → Bool
is_valid_translation_failed e = is_valid_envelope e.envelope && is_valid_identifier e.segment_id
