-- ===== src/Projection/Merging.antt =====
-- Speaker aliases and merges (protocol/projection.py).
use realtime_meeting_transla.Prelude.{
  ◌≡◌, refl, List, Option, Bool, ap, ◌∙◌, true, false, false, ◌&&◌, not, none, some, Text, arith,
  if◌then◌else◌, length,
}
use realtime_meeting_transla.Prelude.Dict.{lookup, member}
use realtime_meeting_transla.Enums.{SpeakerOperation}
use realtime_meeting_transla.Events.{Event, event_id}
use realtime_meeting_transla.Events.Transcripts.{SpeakerUpdated}
use realtime_meeting_transla.Projection.State.{SegmentProjection, SessionProjection}
use realtime_meeting_transla.Projection.Speakers.{
  canonical_speaker, alias_all, is_source, with_speaker, is_rewritten, rewrite, rewrite_all,
  merge_into, apply_speaker_merge,
}
use realtime_meeting_transla.Projection.Updates.{apply_speaker}
use realtime_meeting_transla.Projection.Reducer.{dispatch, settle, noted, apply}
use realtime_meeting_transla.Projection.Invariant.{lookup-rewrite_all}
use realtime_meeting_transla.Projection.Rules.{stored-none}
use realtime_meeting_transla.Projection.Aliases.{lookup-alias_all, lookup-length, follow_once}

-- What a merge does to the session.
pub merge_into-target :
    (s : SessionProjection) (e : SpeakerUpdated) (target : Text)
    → e.operation ≡ SpeakerOperation.merge
    → e.to_speaker_id ≡ some target
    → (apply_speaker s e).0 ≡ record s {
      speaker_aliases = alias_all e.from_speaker_ids target s.speaker_aliases;
      segments = rewrite_all e.from_speaker_ids target e.speaker_revision s.segments;
    }
unfolding apply_speaker apply_speaker_merge merge_into
merge_into-target s e target o t = rw (o, apply_speaker, t, merge_into)

pub apply_new :
    (s : SessionProjection) (e : Event)
    → member (event_id e) s.seen_event_ids ≡ false
    → apply s e ≡ settle (event_id e) (dispatch s e)
unfolding apply
apply_new s e h = rw (h, apply)

-- The speaker is known and one of those that are merged.
abbrev is_merged : List Text → Option Text → Bool
is_merged sources speaker = elim speaker [ none ↦ false | some id ↦ member id sources ]

is_source_lem :
    (sources : List Text) (speaker : Option Text)
    → is_source sources speaker ≡ is_merged sources speaker
unfolding is_source
is_source_lem sources none = refl
is_source_lem sources (some id) = refl

-- A new merge event with a target gives exactly the open segments of the merged speakers the
-- target and its revision, leaves every other known segment as it was, makes aliases of exactly
-- the merged ids, and notes no conflict.
pub apply-merge :
    (s : SessionProjection) (e : SpeakerUpdated) (target k j : Text) (g : SegmentProjection)
    → e.operation ≡ SpeakerOperation.merge
    → e.to_speaker_id ≡ some target
    → member (event_id (Event.speaker_updated e)) s.seen_event_ids ≡ false
    → lookup k s.segments ≡ some g
    → let t = (apply s (Event.speaker_updated e)).0 in
      (lookup k t.segments
        ≡ some (
            if not g.sealed && is_merged e.from_speaker_ids g.primary_speaker_id
            then record g {
              primary_speaker_id = some target;
              speaker_revision = e.speaker_revision;
            }
            else g))
      × (lookup j t.speaker_aliases
          ≡ (if member j e.from_speaker_ids then some target else lookup j s.speaker_aliases))
      × (t.conflicts ≡ s.conflicts)
unfolding dispatch settle noted rewrite is_rewritten apply_speaker apply_speaker_merge merge_into
apply-merge s e target k j g o t new known =
    let shape = merge_into-target s e target o t in
    rw (apply_new s (Event.speaker_updated e) new, o, apply_speaker, t, merge_into, settle)
      (
        rw (
          shape,
          stored-none,
          lookup-rewrite_all e.from_speaker_ids target e.speaker_revision k s.segments,
          known,
          is_source_lem e.from_speaker_ids g.primary_speaker_id,
        ),
        rw (shape, lookup-alias_all e.from_speaker_ids target j s.speaker_aliases),
        rw shape,
      )

-- After a new merge into an id that is an alias of a final id, neither being a source, an open
-- segment of a merged speaker carries the alias, which resolves to the final id.
pub apply-merge_alias :
    (s : SessionProjection) (e : SpeakerUpdated) (target final k : Text) (g : SegmentProjection)
    → e.operation ≡ SpeakerOperation.merge
    → e.to_speaker_id ≡ some target
    → member (event_id (Event.speaker_updated e)) s.seen_event_ids ≡ false
    → lookup k s.segments ≡ some g
    → g.sealed ≡ false
    → is_source e.from_speaker_ids g.primary_speaker_id ≡ true
    → lookup target s.speaker_aliases ≡ some final
    → lookup final s.speaker_aliases ≡ none
    → member target e.from_speaker_ids ≡ false
    → member final e.from_speaker_ids ≡ false
    → let t = (apply s (Event.speaker_updated e)).0 in
      (lookup k t.segments ≡ some (with_speaker target e.speaker_revision g))
      × (canonical_speaker t.speaker_aliases (some target) ≡ some final)
unfolding canonical_speaker
apply-merge_alias s e target final k g o t new known unsealed source alias end apart_target
      apart_final =
    let d = (apply s (Event.speaker_updated e)).0.speaker_aliases in
    let at_target = apply-merge s e target k target g o t new known in
    let at_final = apply-merge s e target k final g o t new known in
    let step : lookup target d ≡ some final = at_target.1 ∙ rw apart_target alias in
    let stop : lookup final d ≡ none = at_final.1 ∙ rw apart_final end in
    (
      at_target.0 ∙ ground (arith, is_source_lem e.from_speaker_ids g.primary_speaker_id),
      ap some (follow_once (length d) d target final (lookup-length target final d step) step stop),
    )
