-- ===== src/Events/Sessions.antt =====
-- protocol/events.py: session lifecycle, audio transport, voice activity and diagnostics. These
-- events carry no segment state.
use realtime_meeting_transla.Prelude.{ℕ, Bool, ◌&&◌, Option, List, Text, leb}
use realtime_meeting_transla.Prelude.Int.{ℤ}
use realtime_meeting_transla.Enums.{GapClass, SessionOutcome}
use realtime_meeting_transla.Events.Fields.{
  Float, Envelope, GapCount, CapabilityEntry, is_valid_envelope, is_valid_identifier,
  is_valid_sample_offset, is_valid_optional,
}

pub record SessionStart : Type 0 where
  pub envelope : Envelope
  pub client_version : Text
  pub requested_frame_ms : ℕ

-- `Field(ge=1, le=500)`
unfoldable pub is_valid_frame_ms : ℕ → Bool
is_valid_frame_ms n = leb 1 n && leb n 500

unfoldable pub is_valid_session_start : SessionStart → Bool
is_valid_session_start e = is_valid_envelope e.envelope && is_valid_frame_ms e.requested_frame_ms

pub record SessionStarted : Type 0 where
  pub envelope : Envelope
  pub server_epoch : Text
  pub stream_id : Text
  pub accepted_frame_ms : ℕ

unfoldable pub is_valid_session_started : SessionStarted → Bool
is_valid_session_started e =
    is_valid_envelope e.envelope
    && is_valid_identifier e.server_epoch
    && is_valid_identifier e.stream_id
    && is_valid_frame_ms e.accepted_frame_ms

pub record SessionResume : Type 0 where
  pub envelope : Envelope
  pub stream_id : Text
  pub last_sent_sequence : ℕ
  pub last_sent_start_sample : ℕ

unfoldable pub is_valid_session_resume : SessionResume → Bool
is_valid_session_resume e =
    is_valid_envelope e.envelope
    && is_valid_identifier e.stream_id
    && is_valid_sample_offset e.last_sent_start_sample

pub record SessionResumed : Type 0 where
  pub envelope : Envelope
  pub server_epoch : Text
  pub stream_id : Text
  pub resume_from_sample : ℕ

unfoldable pub is_valid_session_resumed : SessionResumed → Bool
is_valid_session_resumed e =
    is_valid_envelope e.envelope
    && is_valid_identifier e.server_epoch
    && is_valid_identifier e.stream_id
    && is_valid_sample_offset e.resume_from_sample

pub record SessionStop : Type 0 where
  pub envelope : Envelope
  pub final_sequence : ℕ
  pub final_end_sample : ℕ

unfoldable pub is_valid_session_stop : SessionStop → Bool
is_valid_session_stop e = is_valid_envelope e.envelope && is_valid_sample_offset e.final_end_sample

pub record SessionSummary : Type 0 where
  pub envelope : Envelope
  pub outcome : SessionOutcome
  pub reasons : List Text
  pub total_samples : ℕ
  pub segment_count : ℕ
  pub sealed_count : ℕ
  pub rejected_count : ℕ
  pub low_confidence_count : ℕ
  pub translation_failed_count : ℕ
  pub integrity_conflict_count : ℕ
  pub synthetic_samples_inserted : ℕ
  pub gaps : List GapCount
  pub drain_overruns : List Text

unfoldable pub is_valid_session_summary : SessionSummary → Bool
is_valid_session_summary e = is_valid_envelope e.envelope && is_valid_sample_offset e.total_samples

pub record SessionStopped : Type 0 where
  pub envelope : Envelope
  pub server_epoch : Text
  pub outcome : SessionOutcome

unfoldable pub is_valid_session_stopped : SessionStopped → Bool
is_valid_session_stopped e = is_valid_envelope e.envelope && is_valid_identifier e.server_epoch

pub record AudioAck : Type 0 where
  pub envelope : Envelope
  pub stream_id : Text
  pub acked_through_sample : ℕ
  pub queue_depth : ℕ
  pub overload : Bool

unfoldable pub is_valid_audio_ack : AudioAck → Bool
is_valid_audio_ack e =
    is_valid_envelope e.envelope
    && is_valid_identifier e.stream_id
    && is_valid_sample_offset e.acked_through_sample

pub record AudioGap : Type 0 where
  pub envelope : Envelope
  pub stream_id : Text
  pub expected_sequence : ℕ
  pub received_sequence : ℕ
  pub start_sample : ℕ
  pub end_sample : ℕ
  pub missing_samples : ℕ
  pub gap_class : GapClass
  pub from_client_overflow : Bool

unfoldable pub is_valid_audio_gap : AudioGap → Bool
is_valid_audio_gap e =
    is_valid_envelope e.envelope
    && is_valid_identifier e.stream_id
    && is_valid_sample_offset e.start_sample
    && is_valid_sample_offset e.end_sample

pub record VadSpeechStarted : Type 0 where
  pub envelope : Envelope
  pub utterance_id : Text
  pub start_sample : ℕ

unfoldable pub is_valid_speech_started : VadSpeechStarted → Bool
is_valid_speech_started e =
    is_valid_envelope e.envelope
    && is_valid_identifier e.utterance_id
    && is_valid_sample_offset e.start_sample

pub record VadSpeechEnded : Type 0 where
  pub envelope : Envelope
  pub utterance_id : Text
  pub start_sample : ℕ
  pub end_sample : ℕ
  pub truncated_by_gap : Bool

unfoldable pub is_valid_speech_ended : VadSpeechEnded → Bool
is_valid_speech_ended e =
    is_valid_envelope e.envelope
    && is_valid_identifier e.utterance_id
    && is_valid_sample_offset e.start_sample
    && is_valid_sample_offset e.end_sample

pub record CapabilityUpdated : Type 0 where
  pub envelope : Envelope
  pub capabilities : List CapabilityEntry

pub record PipelineWarning : Type 0 where
  pub envelope : Envelope
  pub code : Text
  pub detail : Text
  pub segment_id : Option Text

unfoldable pub is_valid_pipeline_warning : PipelineWarning → Bool
is_valid_pipeline_warning e =
    is_valid_envelope e.envelope && is_valid_optional is_valid_identifier e.segment_id

pub record PipelineError : Type 0 where
  pub envelope : Envelope
  pub code : Text
  pub detail : Text
  pub fatal : Bool
  pub segment_id : Option Text

unfoldable pub is_valid_pipeline_error : PipelineError → Bool
is_valid_pipeline_error e =
    is_valid_envelope e.envelope && is_valid_optional is_valid_identifier e.segment_id

pub record MetricsSnapshot : Type 0 where
  pub envelope : Envelope
  pub metrics : List (Text × Float)
  pub queue_depths : List (Text × ℤ)
