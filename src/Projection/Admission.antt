-- ===== src/Projection/Admission.antt =====
-- When the reducer applies an event (protocol/projection.py): the conditions of all handlers as one
-- independent test.
use realtime_meeting_transla.Prelude.{
  ◌≡◌, refl, sym, ap, ◌∙◌, Bool-cases, inl, inr, Bool, true, false, not, ◌&&◌, Option, none, some,
  Text, arith, Option-cases, ltb,
}
use realtime_meeting_transla.Prelude.Dict.{lookup, member}
use realtime_meeting_transla.Enums.{SpeakerOperation, RejectionReason}
use realtime_meeting_transla.Events.{Event, event_id}
use realtime_meeting_transla.Events.Transcripts.{
  TranscriptPartial, TranscriptFinal, LanguageUpdated, SpeakerUpdated, TranslationStarted,
  TranslationFinal, TranslationFailed,
}
use realtime_meeting_transla.Projection.State.{
  ProjectionResult, SessionProjection, Outcome, Dimension, Payload, Detail, refuse,
}
use realtime_meeting_transla.Projection.Speakers.{merge_into, apply_speaker_merge}
use realtime_meeting_transla.Projection.Handlers.{same_revision-applied, apply_partial, apply_final}
use realtime_meeting_transla.Projection.Updates.{
  apply_language, assign_speaker, assign_or_refuse, apply_speaker, apply_translation_started,
  apply_translation_final, apply_translation_failed,
}
use realtime_meeting_transla.Projection.Reducer.{dispatch, settle, apply}
use realtime_meeting_transla.Projection.Admits.{of_segment, admits, ladder-applied}

module _ (s : SessionProjection) where
  apply_partial-applied :
      (e : TranscriptPartial) → (apply_partial s e).applied ≡ admits s (Event.transcript_partial e)
  unfolding apply_partial
  apply_partial-applied e = elim (Option-cases (lookup e.segment_id s.segments)) [
    | inl unknown ↦ rw (unknown, apply_partial)
    | inr (g, known) ↦
        rw (known, apply_partial)
          (ladder-applied g.sealed e.content_revision g.content_revision _ _ _ _ refl refl
            (same_revision-applied _ _ _ _ _ _ _) refl)
  ]

  apply_final-applied :
      (kind : Text) (e : TranscriptFinal)
      → (apply_final s kind e).applied ≡ admits s (Event.transcript_final e)
  unfolding apply_final
  apply_final-applied kind e = elim (Option-cases (lookup e.segment_id s.segments)) [
    | inl unknown ↦ rw (unknown, apply_final)
    | inr (g, known) ↦
        rw (known, apply_final)
          (ladder-applied g.sealed e.content_revision g.content_revision _ _ _ _ refl refl
            (same_revision-applied _ _ _ _ _ _ _) refl)
  ]

  apply_language-applied :
      (e : LanguageUpdated) → (apply_language s e).applied ≡ admits s (Event.language_updated e)
  unfolding apply_language
  apply_language-applied e = elim (Option-cases (lookup e.segment_id s.segments)) [
    | inl unknown ↦ rw (unknown, apply_language)
    | inr (g, known) ↦
        rw (known, apply_language)
          (ladder-applied g.sealed e.language_revision g.language_revision _ _ _ _ refl refl
            (same_revision-applied _ _ _ _ _ _ _) refl)
  ]

  assign_speaker-applied :
      (e : SpeakerUpdated) (k : Text)
      → (assign_speaker s e k).applied
        ≡ of_segment false (λ g. ltb g.speaker_revision e.speaker_revision) (lookup k s.segments)
  unfolding assign_speaker
  assign_speaker-applied e k = elim (Option-cases (lookup k s.segments)) [
    | inl unknown ↦ rw (unknown, assign_speaker)
    | inr (g, known) ↦
        rw (known, assign_speaker)
          (ladder-applied g.sealed e.speaker_revision g.speaker_revision _ _ _ _ refl refl
            (same_revision-applied _ _ _ _ _ _ _) refl)
  ]

  apply_translation_started-applied :
      (e : TranslationStarted)
      → (apply_translation_started s e).applied ≡ admits s (Event.translation_started e)
  unfolding apply_translation_started
  apply_translation_started-applied e = elim (Option-cases (lookup e.segment_id s.segments)) [
    | inl unknown ↦ rw (unknown, apply_translation_started)
    | inr (g, known) ↦ rw (known, apply_translation_started) (ground arith)
  ]

  apply_translation_final-applied :
      (e : TranslationFinal)
      → (apply_translation_final s e).applied ≡ admits s (Event.translation_final e)
  unfolding apply_translation_final
  apply_translation_final-applied e = elim (Option-cases (lookup e.segment_id s.segments)) [
    | inl unknown ↦ rw (unknown, apply_translation_final)
    | inr (g, known) ↦
        rw (known, apply_translation_final)
          (ground (
            arith,
            same_revision-applied e.segment_id e.envelope.event_id Dimension.translation
                e.translation_revision (Payload.translated g.translation_text)
                (Payload.translated e.text) (Detail.translation_repeated e.translation_revision),
          ))
  ]

  apply_translation_failed-applied :
      (e : TranslationFailed)
      → (apply_translation_failed s e).applied ≡ admits s (Event.translation_failed e)
  unfolding apply_translation_failed
  apply_translation_failed-applied e = elim (Option-cases (lookup e.segment_id s.segments)) [
    | inl unknown ↦ rw (unknown, apply_translation_failed)
    | inr (g, known) ↦ rw (known, apply_translation_failed) (ground arith)
  ]

  -- How a call reports, if it returns.
  abbrev Reports : Bool → SessionProjection × Outcome → Type 0
  Reports b (t, Outcome.assertion_error) = Unit
  Reports b (t, Outcome.returned r) = r.applied ≡ b

  merge_into-Reports :
      (e : SpeakerUpdated) (target : Option Text) → Reports true (merge_into s e target)
  unfolding merge_into
  merge_into-Reports e none = tt
  merge_into-Reports e (some target) = refl

  assign_or_refuse-applied :
      (e : SpeakerUpdated)
      → (assign_or_refuse s e).applied ≡ elim e.segment_id as (λ x. Bool) [
        | none ↦ false
        | some k ↦
            of_segment false (λ g. ltb g.speaker_revision e.speaker_revision) (lookup k s.segments)
      ]
  unfolding assign_or_refuse
  assign_or_refuse-applied e = by_segment e.segment_id
    where
      by_segment :
          (o : Option Text)
          → (elim o as (λ x. ProjectionResult) [
            | none ↦ refuse RejectionReason.not_applicable Detail.assign_without_segment
            | some k ↦ assign_speaker s e k
          ]).applied
            ≡ elim o as (λ x. Bool) [
              | none ↦ false
              | some k ↦
                  of_segment false
                    (λ g. ltb g.speaker_revision e.speaker_revision)
                    (lookup k s.segments)
            ]
      by_segment none = refl
      by_segment (some k) = assign_speaker-applied e k

  apply_speaker-Reports :
      (e : SpeakerUpdated) → Reports (admits s (Event.speaker_updated e)) (apply_speaker s e)
  unfolding apply_speaker apply_speaker_merge
  apply_speaker-Reports e = by_operation e.operation
    where
      by_operation :
          (o : SpeakerOperation)
          → Reports
              (elim o as (λ x. Bool) [
                | SpeakerOperation.merge ↦ true
                | _ ↦ elim e.segment_id as (λ x. Bool) [
                  | none ↦ false
                  | some k ↦
                      of_segment false
                        (λ g. ltb g.speaker_revision e.speaker_revision)
                        (lookup k s.segments)
                ]
              ])
              (elim o as (λ x. SessionProjection × Outcome) [
                | SpeakerOperation.merge ↦ apply_speaker_merge s e
                | _ ↦ (s, Outcome.returned (assign_or_refuse s e))
              ])
      by_operation SpeakerOperation.merge = merge_into-Reports e e.to_speaker_id
      by_operation _ = assign_or_refuse-applied e

  dispatch-Reports : (e : Event) → Reports (admits s e) (dispatch s e)
  unfolding dispatch
  dispatch-Reports (Event.transcript_partial e) = apply_partial-applied e
  dispatch-Reports (Event.transcript_revised e) = apply_final-applied _ e
  dispatch-Reports (Event.transcript_final e) = apply_final-applied _ e
  dispatch-Reports (Event.language_updated e) = apply_language-applied e
  dispatch-Reports (Event.speaker_updated e) = apply_speaker-Reports e
  dispatch-Reports (Event.translation_started e) = apply_translation_started-applied e
  dispatch-Reports (Event.translation_final e) = apply_translation_final-applied e
  dispatch-Reports (Event.translation_failed e) = apply_translation_failed-applied e
  dispatch-Reports _ = refl

  settle-Reports :
      (b : Bool) (id : Text) (m : SessionProjection × Outcome)
      → Reports b m
      → Reports b (settle id m)
  unfolding settle
  settle-Reports b id (t, Outcome.assertion_error) h = tt
  settle-Reports b id (t, Outcome.returned r) h = h

  Reports-elim :
      (b : Bool) (m : SessionProjection × Outcome) (r : ProjectionResult)
      → Reports b m
      → m.1 ≡ Outcome.returned r
      → r.applied ≡ b
  Reports-elim b (t, Outcome.assertion_error) r k h = absurd (cc)
  Reports-elim b (t, Outcome.returned q) r k h =
      let same : q ≡ r = cc in sym (ap (λ x. x.applied) same) ∙ k

  -- Where `apply` returns a result, the event was applied exactly if its id is new and it is
  -- admitted, which is: a merge; or a transcript of an unknown segment; or, on an open segment, a
  -- newer content, language or speaker revision, a translation start of an accepted segment, a
  -- newer translation whose two echoes match, or a translation failure whose content echo
  -- matches.
  pub applied-admits :
      (e : Event) (r : ProjectionResult)
      → (apply s e).1 ≡ Outcome.returned r
      → r.applied ≡ (not (member (event_id e) s.seen_event_ids) && admits s e)
  unfolding apply
  applied-admits e r = elim (Bool-cases (member (event_id e) s.seen_event_ids)) [
    | inl seen ↦ rw (seen, apply) (λ h. Reports-elim false (s, _) r refl h)
    | inr new ↦
        rw (new, apply)
          (Reports-elim (admits s e) (settle (event_id e) (dispatch s e)) r
            (settle-Reports (admits s e) (event_id e) (dispatch s e) (dispatch-Reports e)))
  ]
