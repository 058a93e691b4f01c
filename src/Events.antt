-- ===== src/Events.antt =====
-- protocol/events.py: the wire events. An event is one of the classes of `EVENT_MODELS`, or a bare
-- `Envelope` with a type of its own.
pub mod Fields
pub mod Transcripts
pub mod Sessions
use realtime_meeting_transla.Prelude.{Bool, Text, codes}
use Fields.{Envelope, is_valid_envelope}
use Transcripts.{
  TranscriptPartial, TranscriptFinal, LanguageUpdated, SpeakerUpdated, TranslationStarted,
  TranslationFinal, TranslationFailed, is_valid_partial, is_valid_final, is_valid_language,
  is_valid_speaker, is_valid_translation_started, is_valid_translation_final,
  is_valid_translation_failed,
}
use Sessions.{
  SessionStart, SessionStarted, SessionResume, SessionResumed, SessionStop, SessionSummary,
  SessionStopped, AudioAck, AudioGap, VadSpeechStarted, VadSpeechEnded, CapabilityUpdated,
  PipelineWarning, PipelineError, MetricsSnapshot, is_valid_session_start, is_valid_session_started,
  is_valid_session_resume, is_valid_session_resumed, is_valid_session_stop,
  is_valid_session_summary, is_valid_session_stopped, is_valid_audio_ack, is_valid_audio_gap,
  is_valid_speech_started, is_valid_speech_ended, is_valid_pipeline_warning,
  is_valid_pipeline_error,
}

pub data Event : Type 0 where
  session_start : SessionStart → Event
  session_started : SessionStarted → Event
  session_resume : SessionResume → Event
  session_resumed : SessionResumed → Event
  session_stop : SessionStop → Event
  session_stopped : SessionStopped → Event
  session_summary : SessionSummary → Event
  audio_ack : AudioAck → Event
  audio_gap : AudioGap → Event
  vad_speech_started : VadSpeechStarted → Event
  vad_speech_ended : VadSpeechEnded → Event
  transcript_partial : TranscriptPartial → Event
  transcript_final : TranscriptFinal → Event
  transcript_revised : TranscriptFinal → Event
  translation_started : TranslationStarted → Event
  translation_final : TranslationFinal → Event
  translation_failed : TranslationFailed → Event
  speaker_updated : SpeakerUpdated → Event
  language_updated : LanguageUpdated → Event
  capability_updated : CapabilityUpdated → Event
  pipeline_warning : PipelineWarning → Event
  pipeline_error : PipelineError → Event
  metrics_snapshot : MetricsSnapshot → Event
  bare : Text → Envelope → Event

unfoldable pub envelope_of : Event → Envelope
envelope_of (Event.session_start e) = e.envelope
envelope_of (Event.session_started e) = e.envelope
envelope_of (Event.session_resume e) = e.envelope
envelope_of (Event.session_resumed e) = e.envelope
envelope_of (Event.session_stop e) = e.envelope
envelope_of (Event.session_stopped e) = e.envelope
envelope_of (Event.session_summary e) = e.envelope
envelope_of (Event.audio_ack e) = e.envelope
envelope_of (Event.audio_gap e) = e.envelope
envelope_of (Event.vad_speech_started e) = e.envelope
envelope_of (Event.vad_speech_ended e) = e.envelope
envelope_of (Event.transcript_partial e) = e.envelope
envelope_of (Event.transcript_final e) = e.envelope
envelope_of (Event.transcript_revised e) = e.envelope
envelope_of (Event.translation_started e) = e.envelope
envelope_of (Event.translation_final e) = e.envelope
envelope_of (Event.translation_failed e) = e.envelope
envelope_of (Event.speaker_updated e) = e.envelope
envelope_of (Event.language_updated e) = e.envelope
envelope_of (Event.capability_updated e) = e.envelope
envelope_of (Event.pipeline_warning e) = e.envelope
envelope_of (Event.pipeline_error e) = e.envelope
envelope_of (Event.metrics_snapshot e) = e.envelope
envelope_of (Event.bare event_type e) = e

-- `event.event_id`
unfoldable pub event_id : Event → Text
unfolding envelope_of
event_id e = (envelope_of e).event_id

-- `event.event_type`, the keys of `EVENT_MODELS`
unfoldable pub event_type : Event → Text
event_type (Event.session_start e) = codes "session.start"
event_type (Event.session_started e) = codes "session.started"
event_type (Event.session_resume e) = codes "session.resume"
event_type (Event.session_resumed e) = codes "session.resumed"
event_type (Event.session_stop e) = codes "session.stop"
event_type (Event.session_stopped e) = codes "session.stopped"
event_type (Event.session_summary e) = codes "session.summary"
event_type (Event.audio_ack e) = codes "audio.ack"
event_type (Event.audio_gap e) = codes "audio.gap"
event_type (Event.vad_speech_started e) = codes "vad.speech_started"
event_type (Event.vad_speech_ended e) = codes "vad.speech_ended"
event_type (Event.transcript_partial e) = codes "transcript.partial"
event_type (Event.transcript_final e) = codes "transcript.final"
event_type (Event.transcript_revised e) = codes "transcript.revised"
event_type (Event.translation_started e) = codes "translation.started"
event_type (Event.translation_final e) = codes "translation.final"
event_type (Event.translation_failed e) = codes "translation.failed"
event_type (Event.speaker_updated e) = codes "speaker.updated"
event_type (Event.language_updated e) = codes "language.updated"
event_type (Event.capability_updated e) = codes "capability.updated"
event_type (Event.pipeline_warning e) = codes "pipeline.warning"
event_type (Event.pipeline_error e) = codes "pipeline.error"
event_type (Event.metrics_snapshot e) = codes "metrics.snapshot"
event_type (Event.bare t e) = t

-- What pydantic accepts: every field constraint and every validator of the class.
unfoldable pub is_valid_event : Event → Bool
is_valid_event (Event.session_start e) = is_valid_session_start e
is_valid_event (Event.session_started e) = is_valid_session_started e
is_valid_event (Event.session_resume e) = is_valid_session_resume e
is_valid_event (Event.session_resumed e) = is_valid_session_resumed e
is_valid_event (Event.session_stop e) = is_valid_session_stop e
is_valid_event (Event.session_stopped e) = is_valid_session_stopped e
is_valid_event (Event.session_summary e) = is_valid_session_summary e
is_valid_event (Event.audio_ack e) = is_valid_audio_ack e
is_valid_event (Event.audio_gap e) = is_valid_audio_gap e
is_valid_event (Event.vad_speech_started e) = is_valid_speech_started e
is_valid_event (Event.vad_speech_ended e) = is_valid_speech_ended e
is_valid_event (Event.transcript_partial e) = is_valid_partial e
is_valid_event (Event.transcript_final e) = is_valid_final e
is_valid_event (Event.transcript_revised e) = is_valid_final e
is_valid_event (Event.translation_started e) = is_valid_translation_started e
is_valid_event (Event.translation_final e) = is_valid_translation_final e
is_valid_event (Event.translation_failed e) = is_valid_translation_failed e
is_valid_event (Event.speaker_updated e) = is_valid_speaker e
is_valid_event (Event.language_updated e) = is_valid_language e
is_valid_event (Event.capability_updated e) = is_valid_envelope e.envelope
is_valid_event (Event.pipeline_warning e) = is_valid_pipeline_warning e
is_valid_event (Event.pipeline_error e) = is_valid_pipeline_error e
is_valid_event (Event.metrics_snapshot e) = is_valid_envelope e.envelope
is_valid_event (Event.bare t e) = is_valid_envelope e
