-- ===== src/Projection/Handlers.antt =====
-- protocol/projection.py: `_apply_partial` and `_apply_final`.
use native.Mathlib.Decide.{ℕ_discrete}
use mathlib.Core.Logic.{ite}
use realtime_meeting_transla.Prelude.{
  ℕ, ◌≡◌, arith, false, Option, none, some, List, [], Text, ltb, ◌==◌, if◌then◌else◌,
}
use realtime_meeting_transla.Prelude.Dict.{lookup}
use realtime_meeting_transla.Enums.{SegmentStatus, TranslationStatus, RejectionReason}
use realtime_meeting_transla.Events.{Event, event_type}
use realtime_meeting_transla.Events.Fields.{SegmentLineage}
use realtime_meeting_transla.Events.Transcripts.{TranscriptPartial, TranscriptFinal}
use realtime_meeting_transla.Projection.State.{
  SegmentProjection, ProjectionResult, SessionProjection, Detail, Dimension, Payload, accept,
  refuse, conflict_refusal, sealed_refusal,
}
use realtime_meeting_transla.Projection.Speakers.{canonical_speaker}

-- The comparison of an incoming payload with the current one.
unfoldable pub payload_discrete : Discrete Payload
payload_discrete = hlevel ℕ_discrete

-- The same revision twice: a duplicate if the payloads agree, a conflict if not.
unfoldable pub same_revision :
    Text → Text → Dimension → ℕ → Payload → Payload → Detail → ProjectionResult
same_revision segment_id event_id dimension revision current incoming repeated =
    ite (payload_discrete incoming current) (refuse RejectionReason.duplicate repeated)
      (conflict_refusal segment_id event_id dimension revision current incoming)

pub same_revision-applied :
    (segment_id event_id : Text) (d : Dimension) (n : ℕ) (current incoming : Payload) (m : Detail)
    → (same_revision segment_id event_id d n current incoming m).applied ≡ false
unfolding same_revision
same_revision-applied segment_id event_id d n current incoming m = ground arith

-- `event.lineage.parent_segment_ids if event.lineage else ()`
unfoldable pub parents : Option SegmentLineage → List Text
parents none = []
parents (some l) = l.parent_segment_ids

-- `_apply_partial` for an unknown segment
abbrev pub first_partial : SessionProjection → TranscriptPartial → SegmentProjection
first_partial s e = record {
  segment_id = e.segment_id;
  utterance_id = e.utterance_id;
  start_sample = e.start_sample;
  end_sample = e.end_sample;
  status = SegmentStatus.partial;
  stable_text = e.stable_text;
  unstable_text = e.unstable_text;
  text = [];
  language_id = e.language_id;
  language_status = e.language_status;
  primary_speaker_id = canonical_speaker s.speaker_aliases e.primary_speaker_id;
  speaker_status = e.speaker_status;
  speaker_candidates = [];
  overlap = false;
  overlap_intervals = [];
  translation_status = TranslationStatus.not_applicable;
  translation_text = [];
  source_language = none;
  target_language = none;
  content_revision = e.content_revision;
  language_revision = e.language_revision;
  speaker_revision = e.speaker_revision;
  translation_revision = 0;
  translated_from_content_revision = none;
  translated_from_language_revision = none;
  parent_segment_ids = parents e.lineage;
  sealed = false;
}

-- `replace(existing, …)` of `_apply_partial`
abbrev pub next_partial : TranscriptPartial → SegmentProjection → SegmentProjection
next_partial e g = record g {
  status = SegmentStatus.partial;
  stable_text = e.stable_text;
  unstable_text = e.unstable_text;
  end_sample = e.end_sample;
  content_revision = e.content_revision;
}

unfoldable pub apply_partial : SessionProjection → TranscriptPartial → ProjectionResult
apply_partial s e = elim (lookup e.segment_id s.segments) [
  | none ↦ accept (first_partial s e)
  | some g ↦
      if g.sealed
      then sealed_refusal g (event_type (Event.transcript_partial e))
      else if ltb e.content_revision g.content_revision
      then refuse RejectionReason.stale
          (Detail.content_behind e.content_revision g.content_revision)
      else if e.content_revision == g.content_revision
      then same_revision e.segment_id e.envelope.event_id Dimension.content e.content_revision
          (Payload.partial_texts g.stable_text g.unstable_text)
          (Payload.partial_texts e.stable_text e.unstable_text)
          (Detail.content_repeated e.content_revision)
      else accept (next_partial e g)
]

-- `translation_status` of `_apply_final`
unfoldable pub status_after_final : SegmentStatus → TranslationStatus
status_after_final SegmentStatus.accepted = TranslationStatus.pending
status_after_final _ = TranslationStatus.not_applicable

-- `_apply_final` for an unknown segment
abbrev pub first_final : SessionProjection → TranscriptFinal → SegmentProjection
first_final s e = record {
  segment_id = e.segment_id;
  utterance_id = e.utterance_id;
  start_sample = e.start_sample;
  end_sample = e.end_sample;
  status = e.status;
  stable_text = [];
  unstable_text = [];
  text = e.text;
  language_id = e.language_id;
  language_status = e.language_status;
  primary_speaker_id = canonical_speaker s.speaker_aliases e.primary_speaker_id;
  speaker_status = e.speaker_status;
  speaker_candidates = e.speaker_candidates;
  overlap = e.overlap;
  overlap_intervals = e.overlap_intervals;
  translation_status = status_after_final e.status;
  translation_text = [];
  source_language = none;
  target_language = none;
  content_revision = e.content_revision;
  language_revision = e.language_revision;
  speaker_revision = e.speaker_revision;
  translation_revision = 0;
  translated_from_content_revision = none;
  translated_from_language_revision = none;
  parent_segment_ids = parents e.lineage;
  sealed = false;
}

-- `replace(existing, …)` of `_apply_final`
abbrev pub next_final : TranscriptFinal → SegmentProjection → SegmentProjection
next_final e g = record g {
  status = e.status;
  text = e.text;
  stable_text = [];
  unstable_text = [];
  start_sample = e.start_sample;
  end_sample = e.end_sample;
  language_id = e.language_id;
  language_status = e.language_status;
  speaker_candidates = e.speaker_candidates;
  overlap = e.overlap;
  overlap_intervals = e.overlap_intervals;
  content_revision = e.content_revision;
  translation_status = status_after_final e.status;
  translation_text = [];
  translated_from_content_revision = none;
  translated_from_language_revision = none;
}

-- `kind` is `event.event_type`, of a final or a revised transcript.
unfoldable pub apply_final : SessionProjection → Text → TranscriptFinal → ProjectionResult
apply_final s kind e = elim (lookup e.segment_id s.segments) [
  | none ↦ accept (first_final s e)
  | some g ↦
      if g.sealed
      then sealed_refusal g kind
      else if ltb e.content_revision g.content_revision
      then refuse RejectionReason.stale
          (Detail.content_behind e.content_revision g.content_revision)
      else if e.content_revision == g.content_revision
      then same_revision e.segment_id e.envelope.event_id Dimension.content e.content_revision
          (Payload.final_text g.text g.status) (Payload.final_text e.text e.status)
          (Detail.content_repeated e.content_revision)
      else accept (next_final e g)
]
