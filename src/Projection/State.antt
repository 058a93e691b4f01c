-- ===== src/Projection/State.antt =====
-- protocol/projection.py: the state of a segment and of a session, and the result of folding one
-- event.
use realtime_meeting_transla.Prelude.{ℕ, Bool, true, false, Option, none, some, List, Text}
use realtime_meeting_transla.Prelude.Dict.{Dict}
use realtime_meeting_transla.Enums.{
  LanguageCode, LanguageStatus, SegmentStatus, SpeakerStatus, TranslationStatus, RejectionReason,
}
use realtime_meeting_transla.Events.Fields.{SpeakerCandidate, OverlapInterval}

pub record SegmentProjection : Type 0 where
  pub segment_id : Text
  pub utterance_id : Text
  pub start_sample : ℕ
  pub end_sample : ℕ
  pub status : SegmentStatus
  pub stable_text : Text
  pub unstable_text : Text
  pub text : Text
  pub language_id : Option LanguageCode
  pub language_status : LanguageStatus
  pub primary_speaker_id : Option Text
  pub speaker_status : SpeakerStatus
  pub speaker_candidates : List SpeakerCandidate
  pub overlap : Bool
  pub overlap_intervals : List OverlapInterval
  pub translation_status : TranslationStatus
  pub translation_text : Text
  pub source_language : Option LanguageCode
  pub target_language : Option LanguageCode
  pub content_revision : ℕ
  pub language_revision : ℕ
  pub speaker_revision : ℕ
  pub translation_revision : ℕ
  pub translated_from_content_revision : Option ℕ
  pub translated_from_language_revision : Option ℕ
  pub parent_segment_ids : List Text
  pub sealed : Bool

-- The four values of `dimension`.
pub data Dimension : Type 0 where
  content language speaker translation : Dimension

-- What two payloads of one revision are compared by. A conflict keeps both, where the source keeps
-- what `repr` prints of them.
pub data Payload : Type 0 where
  partial_texts : Text → Text → Payload
  final_text : Text → SegmentStatus → Payload
  decision : Option LanguageCode → LanguageStatus → Payload
  attribution : Option Text → SpeakerStatus → Payload
  translated : Text → Payload

pub record IntegrityConflict : Type 0 where
  pub segment_id : Text
  pub event_id : Text
  pub dimension : Dimension
  pub revision : ℕ
  pub existing : Payload
  pub incoming : Payload

-- The messages of the reducer, one constructor for each f-string and its holes.
pub data Detail : Type 0 where
  empty assign_without_segment : Detail
  already_applied no_segment_state unknown_segment already_sealed : Text → Detail
  language_unknown speaker_unknown : Text → Detail
  started_unknown translation_unknown failure_unknown : Text → Detail
  after_seal : Text → Text → Detail
  content_behind language_behind speaker_behind translation_behind failure_echo : ℕ → ℕ → Detail
  content_repeated language_repeated speaker_repeated translation_repeated : ℕ → Detail
  arrived_twice : Dimension → ℕ → Detail
  not_accepted : Text → SegmentStatus → Detail
  echoes_differ : ℕ → ℕ → ℕ → ℕ → Detail
  merged : ℕ → Text → ℕ → Detail

pub record ProjectionResult : Type 0 where
  pub applied : Bool
  pub segment : Option SegmentProjection
  pub reason : Option RejectionReason
  pub detail : Detail
  pub conflict : Option IntegrityConflict

-- `ProjectionResult.ok`
abbrev pub accept : SegmentProjection → ProjectionResult
accept g = record {
  applied = true;
  segment = some g;
  reason = none;
  detail = Detail.empty;
  conflict = none;
}

-- `ProjectionResult.refuse`
abbrev pub refuse_with : RejectionReason → Detail → Option IntegrityConflict → ProjectionResult
refuse_with reason detail conflict = record {
  applied = false;
  segment = none;
  reason = some reason;
  detail = detail;
  conflict = conflict;
}

abbrev pub refuse : RejectionReason → Detail → ProjectionResult
refuse reason detail = refuse_with reason detail none

-- `_conflict`
abbrev pub conflict_refusal : Text → Text → Dimension → ℕ → Payload → Payload → ProjectionResult
conflict_refusal segment_id event_id dimension revision existing incoming =
    refuse_with RejectionReason.integrity_conflict (Detail.arrived_twice dimension revision) (
      some (record {
        segment_id = segment_id;
        event_id = event_id;
        dimension = dimension;
        revision = revision;
        existing = existing;
        incoming = incoming;
      }))

-- `_sealed_refusal`
abbrev pub sealed_refusal : SegmentProjection → Text → ProjectionResult
sealed_refusal g event_type =
    refuse RejectionReason.not_applicable (Detail.after_seal g.segment_id event_type)

pub record SessionProjection : Type 0 where
  pub session_id : Text
  pub segments : Dict SegmentProjection
  pub seen_event_ids : List Text
  pub speaker_aliases : Dict Text
  pub conflicts : List IntegrityConflict

-- A call of a handler returns a result, or a failed `assert` raises.
pub data Outcome : Type 0 where
  returned : ProjectionResult → Outcome
  assertion_error : Outcome
