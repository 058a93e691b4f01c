-- ===== src/Enums.antt =====
-- protocol/enums.py: the enumerations of the wire schema and of the projection, with the text
-- that each `StrEnum` member prints as.
pub mod Languages
pub mod Values
use realtime_meeting_transla.Prelude.{Bool, true, false}

pub data LanguageCode : Type 0 where
  ja vi : LanguageCode

pub data LanguageStatus : Type 0 where
  unknown provisional_ja provisional_vi confirmed_ja confirmed_vi mixed uncertain : LanguageStatus

pub data AsrLanguageMode : Type 0 where
  auto session_hint speaker_hint provisional_lid confirmed_lid : AsrLanguageMode

pub data SegmentStatus : Type 0 where
  created partial asr_final_candidate accepted low_confidence rejected sealed : SegmentStatus

pub data TranslationStatus : Type 0 where
  not_applicable pending completed failed : TranslationStatus

pub data SpeakerStatus : Type 0 where
  unknown provisional confirmed : SpeakerStatus

pub data SegmentOperation : Type 0 where
  create revise split merge seal : SegmentOperation

pub data SpeakerOperation : Type 0 where
  assign merge split : SpeakerOperation

pub data GapClass : Type 0 where
  small medium large : GapClass

pub data SessionOutcome : Type 0 where
  completed completed_with_warnings failed : SessionOutcome

pub data Capability : Type 0 where
  final_asr partial_asr speechbrain_lid speaker_embedding : Capability
  pyannote translation debug_writer history_projection : Capability

pub data CapabilityState : Type 0 where
  available degraded unavailable : CapabilityState

pub data RecordKind : Type 0 where
  wire_event client_local integrity_conflict : RecordKind

pub data RejectionReason : Type 0 where
  duplicate stale integrity_conflict not_applicable : RejectionReason

-- `LanguageStatus.is_resolved`
unfoldable pub is_resolved : LanguageStatus → Bool
is_resolved LanguageStatus.confirmed_ja = true
is_resolved LanguageStatus.confirmed_vi = true
is_resolved _ = false

-- `SegmentStatus.is_terminal_asr_outcome`
unfoldable pub is_terminal_asr_outcome : SegmentStatus → Bool
is_terminal_asr_outcome SegmentStatus.accepted = true
is_terminal_asr_outcome SegmentStatus.low_confidence = true
is_terminal_asr_outcome SegmentStatus.rejected = true
is_terminal_asr_outcome _ = false

-- `SegmentStatus.is_translatable`
unfoldable pub is_translatable : SegmentStatus → Bool
is_translatable SegmentStatus.accepted = true
is_translatable _ = false

-- `TranslationStatus.is_terminal`
unfoldable pub is_terminal : TranslationStatus → Bool
is_terminal TranslationStatus.completed = true
is_terminal TranslationStatus.failed = true
is_terminal TranslationStatus.not_applicable = true
is_terminal TranslationStatus.pending = false

-- `x is SegmentStatus.REJECTED`
unfoldable pub is_rejected : SegmentStatus → Bool
is_rejected SegmentStatus.rejected = true
is_rejected _ = false
