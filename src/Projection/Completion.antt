-- ===== src/Projection/Completion.antt =====
-- An open segment can be translated and closed for good (protocol/projection.py).
use realtime_meeting_transla.Prelude.{
  ◌<◌, ◌≡◌, refl, ap, sym, ◌∙◌, true, false, some, List, arith, text_eq_refl,
}
use realtime_meeting_transla.Prelude.Dict.{
  lookup-AllEntries, lookup, insert, member, lookup-insert_self,
}
use realtime_meeting_transla.Events.{Event, event_id}
use realtime_meeting_transla.Events.Transcripts.{TranslationFinal}
use realtime_meeting_transla.Projection.State.{
  SegmentProjection, SessionProjection, Outcome, accept,
}
use realtime_meeting_transla.Projection.Updates.{apply_translation_final, next_translation}
use realtime_meeting_transla.Projection.Reducer.{apply, dispatch, settle, stored, fold, seal}
use realtime_meeting_transla.Projection.Views.{translation_is_current, echoes, is_completed}
use realtime_meeting_transla.Projection.Invariant.{IsEntry, IsValid, apply-IsValid, seal-IsValid}
use realtime_meeting_transla.Projection.Rules.{sealed_copy}
use realtime_meeting_transla.Projection.Progress.{fold_sealed, lookup-seal}

module _ (s : SessionProjection) (e : TranslationFinal) (g : SegmentProjection)
    (known : lookup e.segment_id s.segments ≡ some g) (valid : IsValid s)
    (is_open : g.sealed ≡ false) (new : member e.envelope.event_id s.seen_event_ids ≡ false)
    (content : e.translated_from_content_revision ≡ g.content_revision)
    (language : e.translated_from_language_revision ≡ g.language_revision)
    (newer : g.translation_revision < e.translation_revision) where
  accepted : apply_translation_final s e ≡ accept (next_translation e g)
  unfolding apply_translation_final
  accepted = rw (apply_translation_final, known, is_open) (ground (arith, content, language, newer))

  abbrev after : SessionProjection
  after = (apply s (Event.translation_final e)).0

  applied :
      apply s (Event.translation_final e)
      ≡ settle e.envelope.event_id (s, Outcome.returned (accept (next_translation e g)))
  unfolding apply dispatch event_id
  applied = rw (apply, new) (ap (λ r. settle e.envelope.event_id (s, Outcome.returned r)) accepted)

  lookup-after : lookup e.segment_id after.segments ≡ some (next_translation e g)
  unfolding settle stored
  lookup-after =
      let id = (lookup-AllEntries IsEntry e.segment_id g s.segments valid.entries known).0 in
      ap (λ m. lookup e.segment_id m.0.segments) applied
      ∙ ap (λ k. lookup k (insert g.segment_id (next_translation e g) s.segments)) (sym id)
      ∙ lookup-insert_self g.segment_id (next_translation e g) s.segments

  -- In a valid session, take an open segment and a translation whose event is new, whose two
  -- echoes match and whose revision is newer. Once the event is applied and the segment sealed, the
  -- segment has that translation, current and closed; and so it stays, whatever events follow.
  pub fold-seal-apply :
      (es : List Event)
      → let done = sealed_copy (next_translation e g) in
        (lookup e.segment_id (fold es (seal after e.segment_id).0).0.segments ≡ some done)
        × (translation_is_current done ≡ true)
        × (done.translation_text ≡ e.text)
        × (done.sealed ≡ true)
  unfolding translation_is_current echoes is_completed
  fold-seal-apply es =
      let done = sealed_copy (next_translation e g) in
      let v = seal-IsValid after e.segment_id (apply-IsValid s (Event.translation_final e) valid) in
      let sealed : lookup e.segment_id (seal after e.segment_id).0.segments ≡ some done =
        lookup-seal after e.segment_id e.segment_id (next_translation e g) lookup-after
        ∙ rw (text_eq_refl e.segment_id) refl in
      (
        fold_sealed es (seal after e.segment_id).0 e.segment_id done v sealed refl,
        ground (arith, content, language),
        refl,
        refl,
      )
