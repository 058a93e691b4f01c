-- ===== src/Projection/Hazards.antt =====
-- Classes of inputs on which protocol/projection.py does other than its rules say.
use realtime_meeting_transla.Prelude.{◌<◌, ◌≡◌, refl, false, some, [], Text, arith}
use realtime_meeting_transla.Prelude.Dict.{lookup}
use realtime_meeting_transla.Enums.{TranslationStatus}
use realtime_meeting_transla.Events.Transcripts.{
  TranscriptFinal, TranslationFinal, TranslationFailed,
}
use realtime_meeting_transla.Projection.State.{SegmentProjection, SessionProjection, accept}
use realtime_meeting_transla.Projection.Handlers.{next_final, apply_final}
use realtime_meeting_transla.Projection.Updates.{
  next_translation, next_failed, apply_translation_final, apply_translation_failed,
}

module _ (s : SessionProjection) (g : SegmentProjection) where
  -- A translation failure that echoes the content revision of an open segment is applied even if
  -- its translation revision is below the segment's: it clears the translation and sets the
  -- revision back.
  late_failure :
      (e : TranslationFailed)
      → lookup e.segment_id s.segments ≡ some g
      → g.sealed ≡ false
      → e.translated_from_content_revision ≡ g.content_revision
      → e.translation_revision < g.translation_revision
      → (g' : SegmentProjection) × (apply_translation_failed s e ≡ accept g')
        × (g'.translation_status ≡ TranslationStatus.failed)
        × (g'.translation_text ≡ [])
        × (g'.translation_revision < g.translation_revision)
  unfolding apply_translation_failed
  late_failure e known unsealed echo older = (next_failed e g, ground arith, refl, refl, older)

  -- A newer final or revised transcript of an open segment replaces the language by its own,
  -- whatever the language revisions of the two are, and keeps the language revision of the
  -- segment.
  final_replaces_language :
      (kind : Text) (e : TranscriptFinal)
      → lookup e.segment_id s.segments ≡ some g
      → g.sealed ≡ false
      → g.content_revision < e.content_revision
      → (g' : SegmentProjection) × (apply_final s kind e ≡ accept g')
        × (g'.language_id ≡ e.language_id)
        × (g'.language_status ≡ e.language_status)
        × (g'.language_revision ≡ g.language_revision)
  unfolding apply_final
  final_replaces_language kind e known unsealed newer =
      (next_final e g, ground arith, refl, refl, refl)

  -- A newer translation whose echoes match is stored on an open segment of any status, also on a
  -- rejected one.
  translates_any_status :
      (e : TranslationFinal)
      → lookup e.segment_id s.segments ≡ some g
      → g.sealed ≡ false
      → e.translated_from_content_revision ≡ g.content_revision
      → e.translated_from_language_revision ≡ g.language_revision
      → g.translation_revision < e.translation_revision
      → (g' : SegmentProjection) × (apply_translation_final s e ≡ accept g')
        × (g'.translation_status ≡ TranslationStatus.completed)
        × (g'.status ≡ g.status)
  unfolding apply_translation_final
  translates_any_status e known unsealed content language newer =
      (next_translation e g, ground arith, refl, refl)
