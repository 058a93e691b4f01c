-- ===== src/Projection/Steps.antt =====
-- What one event may change in a session (protocol/projection.py).
use realtime_meeting_transla.Prelude.{
  ℕ, ◌<◌, ◌≡◌, refl, Bool, true, false, Option, none, some, List, Text, arith, ltb, ◌==◌,
  if◌then◌else◌,
}
use realtime_meeting_transla.Prelude.Dict.{lookup}
use realtime_meeting_transla.Events.Transcripts.{
  TranscriptPartial, TranscriptFinal, LanguageUpdated, SpeakerUpdated, TranslationStarted,
  TranslationFinal, TranslationFailed,
}
use realtime_meeting_transla.Projection.State.{
  SegmentProjection, ProjectionResult, SessionProjection, Outcome, Dimension, Payload, Detail,
  accept,
}
use realtime_meeting_transla.Projection.Speakers.{alias_all, rewrite_all}
use realtime_meeting_transla.Projection.Handlers.{
  first_partial, next_partial, first_final, next_final, same_revision, same_revision-applied,
}
use realtime_meeting_transla.Projection.Updates.{
  is_accepted, next_language, next_speaker, next_started, next_translation, next_failed,
}

-- How an accepted event replaces a segment.
pub data Revises (g : SegmentProjection) : SegmentProjection → Type 0 where
  partial :
      (e : TranscriptPartial)
      → g.content_revision < e.content_revision
      → Revises g (next_partial e g)
  final :
      (e : TranscriptFinal) → g.content_revision < e.content_revision → Revises g (next_final e g)
  language :
      (e : LanguageUpdated)
      → g.language_revision < e.language_revision
      → Revises g (next_language e g)
  speaker :
      (e : SpeakerUpdated) (speaker : Option Text)
      → g.speaker_revision < e.speaker_revision
      → Revises g (next_speaker e speaker g)
  started : (e : TranslationStarted) → is_accepted g.status ≡ true → Revises g (next_started e g)
  translation :
      (e : TranslationFinal)
      → e.translated_from_content_revision ≡ g.content_revision
      → e.translated_from_language_revision ≡ g.language_revision
      → g.translation_revision < e.translation_revision
      → Revises g (next_translation e g)
  failed :
      (e : TranslationFailed)
      → e.translated_from_content_revision ≡ g.content_revision
      → Revises g (next_failed e g)

-- How the first event of a segment makes it.
pub data Creates (s : SessionProjection) : SegmentProjection → Type 0 where
  partial : (e : TranscriptPartial) → Creates s (first_partial s e)
  final : (e : TranscriptFinal) → Creates s (first_final s e)

pub data Change (s : SessionProjection) : SessionProjection × Outcome → Type 0 where
  raised : Change s (s, Outcome.assertion_error)
  refused : (r : ProjectionResult) → r.applied ≡ false → Change s (s, Outcome.returned r)
  created :
      (g : SegmentProjection)
      → lookup g.segment_id s.segments ≡ none
      → Creates s g
      → Change s (s, Outcome.returned (accept g))
  revised :
      (k : Text) (g g' : SegmentProjection)
      → lookup k s.segments ≡ some g
      → g.sealed ≡ false
      → Revises g g'
      → Change s (s, Outcome.returned (accept g'))
  merged :
      (sources : List Text) (target : Text) (revision : ℕ) (r : ProjectionResult)
      → r.applied ≡ true
      → r.segment ≡ none
      → r.conflict ≡ none
      → Change s (
        record s {
          speaker_aliases = alias_all sources target s.speaker_aliases;
          segments = rewrite_all sources target revision s.segments;
        },
        Outcome.returned r,
      )

-- Both branches of a test make a change.
pub if-Change :
    {s : SessionProjection} (b : Bool) (x y : ProjectionResult)
    → (b ≡ true → Change s (s, Outcome.returned x))
    → (b ≡ false → Change s (s, Outcome.returned y))
    → Change s (s, Outcome.returned (if b then x else y))
if-Change true x y yes_branch no_branch = yes_branch refl
if-Change false x y yes_branch no_branch = no_branch refl

pub same_revision-Change :
    {s : SessionProjection} (segment_id event_id : Text) (d : Dimension) (n : ℕ) (p q : Payload)
    (m : Detail)
    → Change s (s, Outcome.returned (same_revision segment_id event_id d n p q m))
same_revision-Change segment_id event_id d n p q m =
    Change.refused _ (same_revision-applied segment_id event_id d n p q m)

-- The common ladder: sealed, behind, repeated, accepted.
pub ladder-Change :
    {s : SessionProjection} (sealed : Bool) (new old : ℕ)
    (after behind same next : ProjectionResult)
    → after.applied ≡ false
    → behind.applied ≡ false
    → same.applied ≡ false
    → (sealed ≡ false → old < new → Change s (s, Outcome.returned next))
    → Change s (
      s,
      Outcome.returned (
          if sealed
          then after
          else if ltb new old
          then behind
          else if new == old
          then same
          else next),
    )
ladder-Change sealed new old after behind same next a b c accepted =
    if-Change sealed _ _ (λ h. Change.refused _ a)
      (λ unsealed.
        if-Change (ltb new old) _ _ (λ h. Change.refused _ b)
          (λ not_behind.
            if-Change (new == old) _ _ (λ h. Change.refused _ c)
              (λ not_same. accepted unsealed (ground arith))))
