-- ===== src/Projection/Admits.antt =====
-- Which events the rules of the projection admit (protocol/projection.py).
use realtime_meeting_transla.Prelude.{
  ℕ, ◌≡◌, if◌then◌else◌, Bool, true, false, not, ◌&&◌, Option, none, some, arith, ltb, ◌==◌,
}
use realtime_meeting_transla.Prelude.Dict.{lookup}
use realtime_meeting_transla.Enums.{SpeakerOperation}
use realtime_meeting_transla.Events.{Event}
use realtime_meeting_transla.Projection.State.{
  SegmentProjection, ProjectionResult, SessionProjection,
}
use realtime_meeting_transla.Projection.Updates.{is_accepted}

-- A test of the segment that an event names.
abbrev pub of_segment : Bool → (SegmentProjection → Bool) → Option SegmentProjection → Bool
of_segment unknown test none = unknown
of_segment unknown test (some g) = not g.sealed && test g

-- The segment is unknown, or open and behind the event; for the other events it is known and open,
-- and the event is newer or its echoes match.
abbrev pub admits : SessionProjection → Event → Bool
admits s (Event.transcript_partial e) =
    of_segment true (λ g. ltb g.content_revision e.content_revision)
      (lookup e.segment_id s.segments)
admits s (Event.transcript_final e) =
    of_segment true (λ g. ltb g.content_revision e.content_revision)
      (lookup e.segment_id s.segments)
admits s (Event.transcript_revised e) =
    of_segment true (λ g. ltb g.content_revision e.content_revision)
      (lookup e.segment_id s.segments)
admits s (Event.language_updated e) =
    of_segment false (λ g. ltb g.language_revision e.language_revision)
      (lookup e.segment_id s.segments)
admits s (Event.speaker_updated e) = elim e.operation [
  | SpeakerOperation.merge ↦ true
  | _ ↦ elim e.segment_id [
    | none ↦ false
    | some k ↦
        of_segment false (λ g. ltb g.speaker_revision e.speaker_revision) (lookup k s.segments)
  ]
]
admits s (Event.translation_started e) =
    of_segment false (λ g. is_accepted g.status) (lookup e.segment_id s.segments)
admits s (Event.translation_final e) =
    of_segment false
      (λ g.
        e.translated_from_content_revision == g.content_revision
        && e.translated_from_language_revision == g.language_revision
        && ltb g.translation_revision e.translation_revision)
      (lookup e.segment_id s.segments)
admits s (Event.translation_failed e) =
    of_segment false (λ g. e.translated_from_content_revision == g.content_revision)
      (lookup e.segment_id s.segments)
admits s _ = false

-- The common ladder of a handler ends in its last branch for an open segment and a newer event.
pub ladder-applied :
    (sealed : Bool) (new old : ℕ) (after behind same next : ProjectionResult)
    → after.applied ≡ false
    → behind.applied ≡ false
    → same.applied ≡ false
    → next.applied ≡ true
    → (if sealed
        then after
        else if ltb new old
        then behind
        else if new == old
        then same
        else next).applied
      ≡ (not sealed && ltb old new)
ladder-applied sealed new old after behind same next a b c d = ground arith
