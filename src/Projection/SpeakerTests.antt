-- ===== src/Projection/SpeakerTests.antt =====
-- The properties of speakers and their merges (protocol/projection.py) at concrete sessions.
use realtime_meeting_transla.Prelude.{◌≡◌, refl, arith, false, some, [], Text, codes, text_eq}
use realtime_meeting_transla.Prelude.Dict.{lookup, member}
use realtime_meeting_transla.Events.{Event, event_id, envelope_of}
use realtime_meeting_transla.Projection.State.{SegmentProjection}
use realtime_meeting_transla.Projection.Samples.{translated, session, merge_event}
use realtime_meeting_transla.Projection.Speakers.{canonical_speaker, follow, is_source}
use realtime_meeting_transla.Projection.Reducer.{apply}
use realtime_meeting_transla.Projection.Views.{translation_is_current}
use realtime_meeting_transla.Projection.Merging.{apply-merge}
use realtime_meeting_transla.Projection.Aliases.{canonical_speaker_fuel}
use realtime_meeting_transla.Projection.Attribution.{OnlySpeaker, apply-OnlySpeaker}
use realtime_meeting_transla.Projection.SampleFacts.{session-IsValid, at_translated}

merge-new :
    (target : Text)
    → member (event_id (Event.speaker_updated (merge_event target))) session.seen_event_ids ≡ false
unfolding member text_eq event_id envelope_of
merge-new target = refl

apply-merge_example :
    let t = (apply session (Event.speaker_updated (merge_event (codes "speaker-2")))).0 in
    (lookup (codes "seg-1") t.segments
      ≡ some (record translated {
        primary_speaker_id = some (codes "speaker-2");
        speaker_revision = 4;
      }))
    × (lookup (codes "speaker-1") t.speaker_aliases ≡ some (codes "speaker-2"))
    × (t.conflicts ≡ [])
unfolding is_source member text_eq
apply-merge_example =
    apply-merge session (merge_event (codes "speaker-2")) (codes "speaker-2") (codes "seg-1")
      (codes "speaker-1") translated refl refl (merge-new (codes "speaker-2")) at_translated

canonical_speaker_fuel_example :
    canonical_speaker session.speaker_aliases (some (codes "speaker-3"))
    ≡ some (follow 7 session.speaker_aliases (codes "speaker-3") [])
canonical_speaker_fuel_example =
    canonical_speaker_fuel session.speaker_aliases (codes "speaker-3") 7 (omega arith)

apply-OnlySpeaker_example :
    (g' : SegmentProjection) × (lookup
        (codes "seg-1")
        (apply session (Event.speaker_updated (merge_event (codes "speaker-2")))).0.segments
      ≡ some g')
    × OnlySpeaker translated g'
    × (translation_is_current g' ≡ translation_is_current translated)
apply-OnlySpeaker_example =
    apply-OnlySpeaker session (merge_event (codes "speaker-2")) (codes "seg-1") translated
      session-IsValid at_translated
