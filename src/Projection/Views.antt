-- ===== src/Projection/Views.antt =====
-- protocol/projection.py: what is read off a session.
use Prim.Native.Nat.{ℕ}
use realtime_meeting_transla.Prelude.{
  Bool, true, false, not, ◌&&◌, ◌||◌, Option, none, some, List, [], ◌∷◌, ◌++◌, Text, ltb, ◌==◌,
  text_ltb, if◌then◌else◌, filterb,
}
use realtime_meeting_transla.Prelude.Dict.{Dict}
use realtime_meeting_transla.Enums.{TranslationStatus, is_rejected}
use realtime_meeting_transla.Projection.State.{SegmentProjection, SessionProjection}

-- `display_text`: an empty text is false in Python.
unfoldable pub display_text : SegmentProjection → Text
display_text g = elim g.text [ [] ↦ g.stable_text ++ g.unstable_text | x ∷ xs ↦ x ∷ xs ]

-- `a == n`, for an `int | None`
unfoldable pub echoes : Option ℕ → ℕ → Bool
echoes none n = false
echoes (some m) n = m == n

-- `self.translation_status is not TranslationStatus.COMPLETED`
unfoldable pub is_completed : TranslationStatus → Bool
is_completed TranslationStatus.completed = true
is_completed _ = false

unfoldable pub translation_is_current : SegmentProjection → Bool
translation_is_current g =
    if not (is_completed g.translation_status)
    then false
    else echoes g.translated_from_content_revision g.content_revision
      && echoes g.translated_from_language_revision g.language_revision

-- `self.segments.values()`
unfoldable pub values : Dict SegmentProjection → List SegmentProjection
values [] = []
values ((k, g) ∷ d) = g ∷ values d

-- `(s.start_sample, s.segment_id) < (t.start_sample, t.segment_id)`
unfoldable pub before : SegmentProjection → SegmentProjection → Bool
before a b =
    ltb a.start_sample b.start_sample
    || (a.start_sample == b.start_sample && text_ltb a.segment_id b.segment_id)

-- `sorted`, a stable sort: an element goes in front of the first that is not before it.
unfoldable pub insert_sorted : SegmentProjection → List SegmentProjection → List SegmentProjection
insert_sorted a [] = a ∷ []
insert_sorted a (b ∷ l) = if before b a then b ∷ insert_sorted a l else a ∷ b ∷ l

unfoldable pub sorted : List SegmentProjection → List SegmentProjection
sorted [] = []
sorted (a ∷ l) = insert_sorted a (sorted l)

unfoldable pub ordered_segments : SessionProjection → List SegmentProjection
ordered_segments s = sorted (values s.segments)

unfoldable pub compactable_segments : SessionProjection → List SegmentProjection
compactable_segments s = filterb (λ g. not (is_rejected g.status)) (ordered_segments s)
