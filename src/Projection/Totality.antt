-- ===== src/Projection/Totality.antt =====
-- No `assert` of the reducer (protocol/projection.py) fails on events that the schema accepts.
use realtime_meeting_transla.Prelude.{
  ◌≡◌, refl, ◌∙◌, ap, Bool, true, Option, none, some, List, [], ◌∷◌, Text, arith, suc, length, All,
}
use realtime_meeting_transla.Enums.{SpeakerOperation}
use realtime_meeting_transla.Events.{Event, event_id, is_valid_event}
use realtime_meeting_transla.Events.Transcripts.{
  SpeakerUpdated, is_valid_merge, merge_needs_a_target, is_valid_speaker,
}
use realtime_meeting_transla.Projection.State.{ProjectionResult, SessionProjection, Outcome}
use realtime_meeting_transla.Projection.Speakers.{merge_into, apply_speaker_merge}
use realtime_meeting_transla.Projection.Updates.{apply_speaker, assign_or_refuse}
use realtime_meeting_transla.Projection.Reducer.{dispatch, settle, apply, fold}
use realtime_meeting_transla.Projection.Rules.{apply-rule}
use realtime_meeting_transla.Projection.Replay.{fold_returned}

-- The merge validator gives the target that the handler asserts.
is_valid_merge-target :
    (sources : List Text) (target : Option Text)
    → is_valid_merge sources target ≡ true
    → (t : Text) × (target ≡ some t)
unfolding is_valid_merge
is_valid_merge-target [] target h = absurd (ground arith)
is_valid_merge-target (x ∷ sources) none h = absurd (ground arith)
is_valid_merge-target (x ∷ sources) (some t) h = (t, refl)

abbrev pub Returns : SessionProjection × Outcome → Type 0
Returns m = (r : ProjectionResult) × (m.1 ≡ Outcome.returned r)

is_valid_speaker-merge :
    (e : SpeakerUpdated) → is_valid_speaker e ≡ true → merge_needs_a_target e ≡ true
unfolding is_valid_speaker
is_valid_speaker-merge e h = ground arith

merge_into-Returns :
    (s : SessionProjection) (e : SpeakerUpdated) (target : Option Text)
    → (t : Text) × (target ≡ some t)
    → Returns (merge_into s e target)
unfolding merge_into
merge_into-Returns s e none (t, h) = absurd (cc)
merge_into-Returns s e (some target) h = (_, refl)

apply_speaker-Returns :
    (s : SessionProjection) (e : SpeakerUpdated)
    → merge_needs_a_target e ≡ true
    → Returns (apply_speaker s e)
unfolding merge_needs_a_target apply_speaker apply_speaker_merge
apply_speaker-Returns s e = by_operation e.operation
  where
    by_operation :
        (o : SpeakerOperation)
        → elim o as (λ x. Bool) [
          | SpeakerOperation.merge ↦ is_valid_merge e.from_speaker_ids e.to_speaker_id
          | _ ↦ true
        ]
          ≡ true
        → Returns (elim o as (λ x. SessionProjection × Outcome) [
          | SpeakerOperation.merge ↦ apply_speaker_merge s e
          | _ ↦ (s, Outcome.returned (assign_or_refuse s e))
        ])
    by_operation SpeakerOperation.merge h =
        merge_into-Returns s e e.to_speaker_id
          (is_valid_merge-target e.from_speaker_ids e.to_speaker_id h)
    by_operation _ h = (_, refl)

dispatch-Returns :
    (s : SessionProjection) (e : Event) → is_valid_event e ≡ true → Returns (dispatch s e)
unfolding dispatch is_valid_event
dispatch-Returns s (Event.speaker_updated e) h =
    apply_speaker-Returns s e (is_valid_speaker-merge e h)
dispatch-Returns s (Event.transcript_partial e) h = (_, refl)
dispatch-Returns s _ h = (_, refl)

settle-Returns : (id : Text) (m : SessionProjection × Outcome) → Returns m → Returns (settle id m)
unfolding settle
settle-Returns id (s, Outcome.assertion_error) (r, h) = absurd (cc)
settle-Returns id (s, Outcome.returned r) h = (r, refl)

-- `apply` returns a result for every event that passes its validation.
pub apply-Returns :
    (s : SessionProjection) (e : Event) → is_valid_event e ≡ true → Returns (apply s e)
apply-Returns s e h =
    apply-rule Returns s e (λ _ r _ _. (r, refl))
      (λ _. settle-Returns (event_id e) (dispatch s e) (dispatch-Returns s e h))

-- `fold` over events that pass their validation returns one result for each.
pub length-fold :
    (es : List Event) (s : SessionProjection)
    → All (λ e. is_valid_event e ≡ true) es
    → length (fold es s).1 ≡ length es
length-fold [] s h = unfold fold in refl
length-fold (e ∷ es) s h =
    let (r, returned) = apply-Returns s e h.0 in
    ap (λ m. length m.1) (fold_returned es s e r returned)
    ∙ ap suc (length-fold es (apply s e).0 h.1)
