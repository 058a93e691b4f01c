-- ===== src/Projection/Tests.antt =====
-- The properties of protocol/projection.py at concrete sessions and events.
use realtime_meeting_transla.Prelude.{
  ◌≡◌, refl, arith, true, false, not, ◌&&◌, some, Text, codes, text_eq, text_eq_iff, length, All,
}
use native.Mathlib.Decide.{ℕ_discrete}
use realtime_meeting_transla.Prelude.Dict.{lookup, member, insert}
use realtime_meeting_transla.Enums.{is_terminal_asr_outcome}
use realtime_meeting_transla.Identifiers.{is_valid_session_id}
use realtime_meeting_transla.Events.Fields.{
  is_valid_envelope, is_valid_identifier, is_valid_text, is_valid_optional, is_valid_sample_offset,
  is_valid_list,
}
use realtime_meeting_transla.Events.Transcripts.{
  TranslationFinal, is_valid_translation_final, is_valid_language, is_valid_final, is_valid_speaker,
  merge_needs_a_target,
}
use realtime_meeting_transla.Events.{Event, event_id, event_type, is_valid_event, envelope_of}
use realtime_meeting_transla.Projection.State.{
  ProjectionResult, Outcome, accept, conflict_refusal, Dimension, Payload,
}
use realtime_meeting_transla.Projection.Samples.{
  translated, closed, session, reordered, revision_of, translation_of, events,
}
use realtime_meeting_transla.Projection.Handlers.{
  apply_final, next_final, same_revision, payload_discrete,
}
use realtime_meeting_transla.Projection.Updates.{apply_translation_final, next_translation}
use realtime_meeting_transla.Projection.Reducer.{apply, dispatch, settle, fold, seal, stored}
use realtime_meeting_transla.Projection.Views.{
  ordered_segments, translation_is_current, echoes, is_completed,
}
use realtime_meeting_transla.Projection.Invariant.{IsValid, fold-IsValid}
use realtime_meeting_transla.Projection.Rules.{sealed_copy}
use realtime_meeting_transla.Projection.Progress.{Keeps, fold-Keeps, fold_sealed}
use realtime_meeting_transla.Projection.Completion.{fold-seal-apply}
use realtime_meeting_transla.Projection.Replay.{fold-fold}
use realtime_meeting_transla.Projection.Admission.{applied-admits}
use realtime_meeting_transla.Projection.Admits.{admits}
use realtime_meeting_transla.Projection.Currency.{SameSource, apply-SameSource}
use realtime_meeting_transla.Projection.Refusals.{Untouched, apply-Untouched}
use realtime_meeting_transla.Projection.Canonical.{ordered_segments-canonical}
use realtime_meeting_transla.Projection.Totality.{length-fold}
use realtime_meeting_transla.Projection.SampleFacts.{
  session-IsValid, reordered-IsValid, at_translated, at_closed,
}

-- A sealed segment under a revision that is newer, and events on other segments.
fold_sealed_example : lookup (codes "seg-2") (fold events session).0.segments ≡ some closed
fold_sealed_example =
    fold_sealed events session (codes "seg-2") closed session-IsValid at_closed refl

fold-Keeps_example : Keeps (codes "seg-1") translated (fold events session).0
fold-Keeps_example =
    fold-Keeps events session session-IsValid (codes "seg-1") translated at_translated

fold-IsValid_example : IsValid (fold events session).0
fold-IsValid_example = fold-IsValid events session session-IsValid

fold-fold_example : (fold events (fold events session).0).0 ≡ (fold events session).0
fold-fold_example = fold-fold events session

abbrev newer : Event
newer = Event.transcript_revised (revision_of (codes "seg-1"))

newer-returned :
    (apply session newer).1
    ≡ Outcome.returned (accept (next_final (revision_of (codes "seg-1")) translated))
unfolding apply settle dispatch apply_final lookup text_eq member event_id envelope_of event_type
newer-returned = refl

applied-admits_example :
    true ≡ (not (member (event_id newer) session.seen_event_ids) && admits session newer)
applied-admits_example =
    applied-admits session newer (accept (next_final (revision_of (codes "seg-1")) translated))
      newer-returned

-- Another text under the translation revision that is there.
abbrev conflicting : Event
conflicting =
    Event.translation_final (record (translation_of (codes "seg-1")) { translation_revision = 2 })

abbrev conflict : ProjectionResult
conflict =
    conflict_refusal (codes "seg-1") (codes "e-6") Dimension.translation 2
      (Payload.translated (codes "ja")) (Payload.translated (codes "konnichiwa"))

conflicting-returned : (apply session conflicting).1 ≡ Outcome.returned conflict
unfolding apply settle dispatch apply_translation_final lookup text_eq member envelope_of
    same_revision payload_discrete ℕ_discrete event_id
conflicting-returned = refl

apply-Untouched_example : Untouched session conflict (apply session conflicting).0
apply-Untouched_example = apply-Untouched session conflicting conflict conflicting-returned refl

translation-stored :
    lookup
      (codes "seg-1")
      (apply session (Event.translation_final (translation_of (codes "seg-1")))).0.segments
    ≡ some (next_translation (translation_of (codes "seg-1")) translated)
unfolding apply settle dispatch apply_translation_final lookup text_eq member event_id envelope_of
    insert stored
translation-stored = refl

translation-current :
    translation_is_current (next_translation (translation_of (codes "seg-1")) translated) ≡ true
unfolding translation_is_current echoes is_completed
translation-current = refl

same_segments : (k : Text) → lookup k session.segments ≡ lookup k reordered.segments
unfolding lookup
same_segments k = ground (
  arith,
  text_eq_iff (codes "seg-1") k,
  text_eq_iff (codes "seg-2") k,
  text_eq_iff (codes "seg-3") k,
)

events-valid : All (λ e. is_valid_event e ≡ true) events
unfolding is_valid_event is_valid_translation_final is_valid_envelope is_valid_identifier
    is_valid_session_id is_valid_text is_valid_language is_valid_optional is_valid_final
    is_valid_sample_offset is_valid_list is_terminal_asr_outcome is_valid_speaker
    merge_needs_a_target member text_eq
events-valid = (refl, (refl, (refl, (refl, tt))))

-- A newer language, after which the translation is no longer current; and a newer translation.
apply-SameSource_example :
    SameSource translated (next_translation (translation_of (codes "seg-1")) translated)
apply-SameSource_example =
    apply-SameSource session (Event.translation_final (translation_of (codes "seg-1")))
      (codes "seg-1") translated (next_translation (translation_of (codes "seg-1")) translated)
      session-IsValid at_translated translation-stored translation-current

ordered_segments-canonical_example : ordered_segments session ≡ ordered_segments reordered
ordered_segments-canonical_example =
    ordered_segments-canonical session reordered session-IsValid reordered-IsValid same_segments

length-fold_example : length (fold events session).1 ≡ 4
length-fold_example = length-fold events session events-valid

-- `e-6` translates the content and the language that the segment has.
abbrev translation_event : TranslationFinal
translation_event = translation_of (codes "seg-1")

unseen : member (codes "e-6") session.seen_event_ids ≡ false
unfolding member text_eq
unseen = refl

fold-seal-apply_example :
    let done = sealed_copy (next_translation translation_event translated) in
    (lookup
        (codes "seg-1")
        (fold events
          (seal
            (apply session (Event.translation_final translation_event)).0
            (codes "seg-1")).0).0.segments
      ≡ some done)
    × (translation_is_current done ≡ true)
    × (done.translation_text ≡ codes "konnichiwa")
    × (done.sealed ≡ true)
fold-seal-apply_example =
    fold-seal-apply session translation_event translated at_translated session-IsValid refl unseen
      refl refl (omega arith) events
