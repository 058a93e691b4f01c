-- ===== src/Projection/Changes.antt =====
-- What one event may do to a session (protocol/projection.py): the abstract view of `_dispatch`.
-- A change is a refusal, a new segment, a revision of one unsealed segment, or a merge of speakers.
use realtime_meeting_transla.Prelude.{
  refl, ◌||◌, inl, inr, false, Option, none, some, Text, arith, Option-cases, not, ◌==◌,
}
use realtime_meeting_transla.Prelude.Dict.{lookup}
use realtime_meeting_transla.Enums.{SpeakerOperation, RejectionReason}
use realtime_meeting_transla.Events.{Event}
use realtime_meeting_transla.Events.Transcripts.{
  TranscriptPartial, TranscriptFinal, LanguageUpdated, SpeakerUpdated, TranslationStarted,
  TranslationFinal, TranslationFailed,
}
use realtime_meeting_transla.Projection.State.{SessionProjection, Outcome, Detail, refuse}
use realtime_meeting_transla.Projection.Speakers.{merge_into, apply_speaker_merge}
use realtime_meeting_transla.Projection.Handlers.{
  first_partial, first_final, same_revision-applied, apply_partial, apply_final,
}
use realtime_meeting_transla.Projection.Updates.{
  is_accepted, apply_language, assign_speaker, assign_or_refuse, apply_speaker,
  apply_translation_started, apply_translation_final, apply_translation_failed,
}
use realtime_meeting_transla.Projection.Reducer.{dispatch}
use realtime_meeting_transla.Projection.Steps.{Revises, Creates, Change, if-Change, ladder-Change}

apply_partial-Change :
    (s : SessionProjection) (e : TranscriptPartial)
    → Change s (s, Outcome.returned (apply_partial s e))
unfolding apply_partial
apply_partial-Change s e = elim (Option-cases (lookup e.segment_id s.segments)) [
  | inl new ↦ rw (new, apply_partial) (Change.created (first_partial s e) new (Creates.partial e))
  | inr (g, known) ↦
      rw (known, apply_partial)
        (ladder-Change g.sealed e.content_revision g.content_revision _ _ _ _ refl refl
          (same_revision-applied _ _ _ _ _ _ _)
          (λ unsealed newer.
            Change.revised e.segment_id g _ known unsealed (Revises.partial e newer)))
]

apply_final-Change :
    (s : SessionProjection) (kind : Text) (e : TranscriptFinal)
    → Change s (s, Outcome.returned (apply_final s kind e))
unfolding apply_final
apply_final-Change s kind e = elim (Option-cases (lookup e.segment_id s.segments)) [
  | inl new ↦ rw (new, apply_final) (Change.created (first_final s e) new (Creates.final e))
  | inr (g, known) ↦
      rw (known, apply_final)
        (ladder-Change g.sealed e.content_revision g.content_revision _ _ _ _ refl refl
          (same_revision-applied _ _ _ _ _ _ _)
          (λ unsealed newer.
            Change.revised e.segment_id g _ known unsealed (Revises.final e newer)))
]

apply_language-Change :
    (s : SessionProjection) (e : LanguageUpdated)
    → Change s (s, Outcome.returned (apply_language s e))
unfolding apply_language
apply_language-Change s e = elim (Option-cases (lookup e.segment_id s.segments)) [
  | inl new ↦ rw (new, apply_language) (Change.refused _ refl)
  | inr (g, known) ↦
      rw (known, apply_language)
        (ladder-Change g.sealed e.language_revision g.language_revision _ _ _ _ refl refl
          (same_revision-applied _ _ _ _ _ _ _)
          (λ unsealed newer.
            Change.revised e.segment_id g _ known unsealed (Revises.language e newer)))
]

assign_speaker-Change :
    (s : SessionProjection) (e : SpeakerUpdated) (k : Text)
    → Change s (s, Outcome.returned (assign_speaker s e k))
unfolding assign_speaker
assign_speaker-Change s e k = elim (Option-cases (lookup k s.segments)) [
  | inl new ↦ rw (new, assign_speaker) (Change.refused _ refl)
  | inr (g, known) ↦
      rw (known, assign_speaker)
        (ladder-Change g.sealed e.speaker_revision g.speaker_revision _ _ _ _ refl refl
          (same_revision-applied _ _ _ _ _ _ _)
          (λ unsealed newer. Change.revised k g _ known unsealed (Revises.speaker e _ newer)))
]

assign_or_refuse-Change :
    (s : SessionProjection) (e : SpeakerUpdated)
    → Change s (s, Outcome.returned (assign_or_refuse s e))
unfolding assign_or_refuse
assign_or_refuse-Change s e = elim (Option-cases e.segment_id) [
  | inl absent ↦ rw (absent, assign_or_refuse) (Change.refused _ refl)
  | inr (k, present) ↦ rw (present, assign_or_refuse) (assign_speaker-Change s e k)
]

merge_into-Change :
    (s : SessionProjection) (e : SpeakerUpdated) (target : Option Text)
    → Change s (merge_into s e target)
unfolding merge_into
merge_into-Change s e none = Change.raised
merge_into-Change s e (some target) =
    Change.merged e.from_speaker_ids target e.speaker_revision _ refl refl refl

apply_speaker-Change : (s : SessionProjection) (e : SpeakerUpdated) → Change s (apply_speaker s e)
unfolding apply_speaker apply_speaker_merge
apply_speaker-Change s e = by_operation e.operation
  where
    by_operation :
        (o : SpeakerOperation)
        → Change s (elim o as (λ x. SessionProjection × Outcome) [
          | SpeakerOperation.merge ↦ apply_speaker_merge s e
          | _ ↦ (s, Outcome.returned (assign_or_refuse s e))
        ])
    by_operation SpeakerOperation.merge = merge_into-Change s e e.to_speaker_id
    by_operation _ = assign_or_refuse-Change s e

apply_translation_started-Change :
    (s : SessionProjection) (e : TranslationStarted)
    → Change s (s, Outcome.returned (apply_translation_started s e))
unfolding apply_translation_started
apply_translation_started-Change s e = elim (Option-cases (lookup e.segment_id s.segments)) [
  | inl new ↦ rw (new, apply_translation_started) (Change.refused _ refl)
  | inr (g, known) ↦
      rw (known, apply_translation_started)
        (if-Change g.sealed _ _ (λ h. Change.refused _ refl)
          (λ unsealed.
            if-Change (not (is_accepted g.status)) _ _ (λ h. Change.refused _ refl)
              (λ h.
                Change.revised e.segment_id g _ known unsealed (Revises.started e (ground arith)))))
]

apply_translation_final-Change :
    (s : SessionProjection) (e : TranslationFinal)
    → Change s (s, Outcome.returned (apply_translation_final s e))
unfolding apply_translation_final
apply_translation_final-Change s e = elim (Option-cases (lookup e.segment_id s.segments)) [
  | inl new ↦ rw (new, apply_translation_final) (Change.refused _ refl)
  | inr (g, known) ↦
      let content_echo = e.translated_from_content_revision == g.content_revision in
      let language_echo = e.translated_from_language_revision == g.language_revision in
      rw (known, apply_translation_final)
        (if-Change g.sealed _ _ (λ h. Change.refused _ refl)
          (λ unsealed.
            if-Change (not content_echo || not language_echo) _ _ (λ h. Change.refused _ refl)
              (λ echoes.
                ladder-Change false e.translation_revision g.translation_revision
                  (refuse RejectionReason.stale Detail.empty) _ _ _ refl refl
                  (same_revision-applied _ _ _ _ _ _ _)
                  (λ _ newer.
                    Change.revised e.segment_id g _ known unsealed
                      (Revises.translation e (ground arith) (ground arith) newer)))))
]

apply_translation_failed-Change :
    (s : SessionProjection) (e : TranslationFailed)
    → Change s (s, Outcome.returned (apply_translation_failed s e))
unfolding apply_translation_failed
apply_translation_failed-Change s e = elim (Option-cases (lookup e.segment_id s.segments)) [
  | inl new ↦ rw (new, apply_translation_failed) (Change.refused _ refl)
  | inr (g, known) ↦
      rw (known, apply_translation_failed)
        (if-Change g.sealed _ _ (λ h. Change.refused _ refl)
          (λ unsealed.
            if-Change (not (e.translated_from_content_revision == g.content_revision)) _ _
              (λ h. Change.refused _ refl)
              (λ h.
                Change.revised e.segment_id g _ known unsealed (Revises.failed e (ground arith)))))
]

-- Whatever the event, `_dispatch` raises or refuses and changes nothing, creates a segment that
-- was unknown, revises an open segment by an event that is newer or whose echo matches, or merges
-- speakers.
pub dispatch-Change : (s : SessionProjection) (e : Event) → Change s (dispatch s e)
unfolding dispatch
dispatch-Change s (Event.transcript_partial e) = apply_partial-Change s e
dispatch-Change s (Event.transcript_revised e) = apply_final-Change s _ e
dispatch-Change s (Event.transcript_final e) = apply_final-Change s _ e
dispatch-Change s (Event.language_updated e) = apply_language-Change s e
dispatch-Change s (Event.speaker_updated e) = apply_speaker-Change s e
dispatch-Change s (Event.translation_started e) = apply_translation_started-Change s e
dispatch-Change s (Event.translation_final e) = apply_translation_final-Change s e
dispatch-Change s (Event.translation_failed e) = apply_translation_failed-Change s e
dispatch-Change s _ = Change.refused _ refl
