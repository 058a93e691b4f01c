-- ===== src/Projection/Updates.antt =====
-- protocol/projection.py: the handlers of language, speaker and translation events.
use realtime_meeting_transla.Prelude.{
  ◌||◌, Bool, true, false, not, Option, none, some, [], Text, ltb, ◌==◌, if◌then◌else◌,
}
use realtime_meeting_transla.Prelude.Dict.{lookup}
use realtime_meeting_transla.Enums.{
  SegmentStatus, TranslationStatus, SpeakerOperation, RejectionReason,
}
use realtime_meeting_transla.Events.{Event, event_type}
use realtime_meeting_transla.Events.Transcripts.{
  LanguageUpdated, SpeakerUpdated, TranslationStarted, TranslationFinal, TranslationFailed,
}
use realtime_meeting_transla.Projection.State.{
  SegmentProjection, ProjectionResult, SessionProjection, Outcome, Detail, Dimension, Payload,
  accept, refuse, sealed_refusal,
}
use realtime_meeting_transla.Projection.Speakers.{canonical_speaker, apply_speaker_merge}
use realtime_meeting_transla.Projection.Handlers.{same_revision}

-- `status is SegmentStatus.ACCEPTED`
unfoldable pub is_accepted : SegmentStatus → Bool
is_accepted SegmentStatus.accepted = true
is_accepted _ = false

-- `replace(existing, …)` of `_apply_language`
abbrev pub next_language : LanguageUpdated → SegmentProjection → SegmentProjection
next_language e g = record g {
  language_id = e.language_id;
  language_status = e.language_status;
  language_revision = e.language_revision;
  translation_status =
      if is_accepted g.status then TranslationStatus.pending else TranslationStatus.not_applicable;
  translation_text = [];
  translated_from_content_revision = none;
  translated_from_language_revision = none;
}

unfoldable pub apply_language : SessionProjection → LanguageUpdated → ProjectionResult
apply_language s e = elim (lookup e.segment_id s.segments) [
  | none ↦ refuse RejectionReason.not_applicable (Detail.language_unknown e.segment_id)
  | some g ↦
      if g.sealed
      then sealed_refusal g (event_type (Event.language_updated e))
      else if ltb e.language_revision g.language_revision
      then refuse RejectionReason.stale
          (Detail.language_behind e.language_revision g.language_revision)
      else if e.language_revision == g.language_revision
      then same_revision e.segment_id e.envelope.event_id Dimension.language e.language_revision
          (Payload.decision g.language_id g.language_status)
          (Payload.decision e.language_id e.language_status)
          (Detail.language_repeated e.language_revision)
      else accept (next_language e g)
]

-- `replace(existing, …)` of `_apply_speaker`
abbrev pub next_speaker : SpeakerUpdated → Option Text → SegmentProjection → SegmentProjection
next_speaker e speaker g = record g {
  primary_speaker_id = speaker;
  speaker_status = e.speaker_status;
  speaker_candidates = e.speaker_candidates;
  speaker_revision = e.speaker_revision;
}

-- `_apply_speaker` behind its first two tests, for the segment `segment_id`
unfoldable pub assign_speaker : SessionProjection → SpeakerUpdated → Text → ProjectionResult
assign_speaker s e segment_id =
    let incoming = canonical_speaker s.speaker_aliases e.primary_speaker_id in
    elim (lookup segment_id s.segments) [
      | none ↦ refuse RejectionReason.not_applicable (Detail.speaker_unknown segment_id)
      | some g ↦
          if g.sealed
          then sealed_refusal g (event_type (Event.speaker_updated e))
          else if ltb e.speaker_revision g.speaker_revision
          then refuse RejectionReason.stale
              (Detail.speaker_behind e.speaker_revision g.speaker_revision)
          else if e.speaker_revision == g.speaker_revision
          then same_revision segment_id e.envelope.event_id Dimension.speaker e.speaker_revision
              (Payload.attribution g.primary_speaker_id g.speaker_status)
              (Payload.attribution incoming e.speaker_status)
              (Detail.speaker_repeated e.speaker_revision)
          else accept (next_speaker e incoming g)
    ]

-- `_apply_speaker` for an event that is no merge
unfoldable pub assign_or_refuse : SessionProjection → SpeakerUpdated → ProjectionResult
assign_or_refuse s e = elim e.segment_id [
  | none ↦ refuse RejectionReason.not_applicable Detail.assign_without_segment
  | some segment_id ↦ assign_speaker s e segment_id
]

-- `_apply_speaker`: a merge changes the session itself.
unfoldable pub apply_speaker : SessionProjection → SpeakerUpdated → SessionProjection × Outcome
apply_speaker s e = elim e.operation [
  | SpeakerOperation.merge ↦ apply_speaker_merge s e
  | _ ↦ (s, Outcome.returned (assign_or_refuse s e))
]

-- `replace(existing, …)` of `_apply_translation_started`
abbrev pub next_started : TranslationStarted → SegmentProjection → SegmentProjection
next_started e g = record g {
  translation_status = TranslationStatus.pending;
  source_language = some e.source_language;
  target_language = some e.target_language;
}

unfoldable pub apply_translation_started : SessionProjection → TranslationStarted → ProjectionResult
apply_translation_started s e = elim (lookup e.segment_id s.segments) [
  | none ↦ refuse RejectionReason.not_applicable (Detail.started_unknown e.segment_id)
  | some g ↦
      if g.sealed
      then sealed_refusal g (event_type (Event.translation_started e))
      else if not (is_accepted g.status)
      then refuse RejectionReason.not_applicable (Detail.not_accepted e.segment_id g.status)
      else accept (next_started e g)
]

-- `replace(existing, …)` of `_apply_translation_final`
abbrev pub next_translation : TranslationFinal → SegmentProjection → SegmentProjection
next_translation e g = record g {
  translation_status = TranslationStatus.completed;
  translation_text = e.text;
  source_language = some e.source_language;
  target_language = some e.target_language;
  translation_revision = e.translation_revision;
  translated_from_content_revision = some e.translated_from_content_revision;
  translated_from_language_revision = some e.translated_from_language_revision;
}

unfoldable pub apply_translation_final : SessionProjection → TranslationFinal → ProjectionResult
apply_translation_final s e = elim (lookup e.segment_id s.segments) [
  | none ↦ refuse RejectionReason.not_applicable (Detail.translation_unknown e.segment_id)
  | some g ↦
      if g.sealed
      then sealed_refusal g (event_type (Event.translation_final e))
      else if not (e.translated_from_content_revision == g.content_revision)
          || not (e.translated_from_language_revision == g.language_revision)
      then refuse RejectionReason.stale (
          Detail.echoes_differ e.translated_from_content_revision
            e.translated_from_language_revision g.content_revision g.language_revision)
      else if ltb e.translation_revision g.translation_revision
      then refuse RejectionReason.stale
          (Detail.translation_behind e.translation_revision g.translation_revision)
      else if e.translation_revision == g.translation_revision
      then same_revision e.segment_id e.envelope.event_id Dimension.translation
          e.translation_revision (Payload.translated g.translation_text) (Payload.translated e.text)
          (Detail.translation_repeated e.translation_revision)
      else accept (next_translation e g)
]

-- `replace(existing, …)` of `_apply_translation_failed`
abbrev pub next_failed : TranslationFailed → SegmentProjection → SegmentProjection
next_failed e g = record g {
  translation_status = TranslationStatus.failed;
  translation_text = [];
  translation_revision = e.translation_revision;
}

unfoldable pub apply_translation_failed : SessionProjection → TranslationFailed → ProjectionResult
apply_translation_failed s e = elim (lookup e.segment_id s.segments) [
  | none ↦ refuse RejectionReason.not_applicable (Detail.failure_unknown e.segment_id)
  | some g ↦
      if g.sealed
      then sealed_refusal g (event_type (Event.translation_failed e))
      else if not (e.translated_from_content_revision == g.content_revision)
      then refuse RejectionReason.stale
          (Detail.failure_echo e.translated_from_content_revision g.content_revision)
      else accept (next_failed e g)
]
