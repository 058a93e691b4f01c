-- ===== src/Projection/Attribution.antt =====
-- `speaker.updated` moves nothing but speaker fields (protocol/projection.py).
use realtime_meeting_transla.Prelude.{
  ℕ, ◌≡◌, refl, ap, Bool, false, Option, none, some, List, Text, arith, ◌⊎◌, inl, inr, ltb, ◌==◌,
  Bool-cases, Option-cases, if◌then◌else◌, text_eq, text_eq_iff,
}
use realtime_meeting_transla.Prelude.Dict.{lookup, lookup-AllEntries, lookup-insert}
use realtime_meeting_transla.Enums.{SpeakerOperation}
use realtime_meeting_transla.Events.{Event, event_id}
use realtime_meeting_transla.Events.Transcripts.{SpeakerUpdated}
use realtime_meeting_transla.Projection.State.{
  SegmentProjection, ProjectionResult, SessionProjection, Outcome, accept,
}
use realtime_meeting_transla.Projection.Speakers.{
  canonical_speaker, is_rewritten, rewrite, rewrite_all, merge_into, apply_speaker_merge,
}
use realtime_meeting_transla.Projection.Handlers.{same_revision-applied}
use realtime_meeting_transla.Projection.Updates.{
  next_speaker, assign_speaker, assign_or_refuse, apply_speaker,
}
use realtime_meeting_transla.Projection.Reducer.{dispatch, settle, stored, apply}
use realtime_meeting_transla.Projection.Invariant.{IsEntry, IsValid, lookup-rewrite_all}
use realtime_meeting_transla.Projection.Rules.{stored-none, apply-rule}
use realtime_meeting_transla.Projection.Views.{translation_is_current}

-- The common ladder of a handler refuses, or gives its last branch.
ladder-cases :
    (sealed : Bool) (new old : ℕ) (after behind same next : ProjectionResult)
    → after.applied ≡ false
    → behind.applied ≡ false
    → same.applied ≡ false
    → let r =
        if sealed
        then after
        else if ltb new old
        then behind
        else if new == old
        then same
        else next in
      (r.applied ≡ false) ⊎ (r ≡ next)
ladder-cases sealed new old after behind same next a b c = ground arith

-- `g'` is `g` but for its speaker fields.
abbrev pub OnlySpeaker : SegmentProjection → SegmentProjection → Type 0
OnlySpeaker g g' = g' ≡ record g {
  primary_speaker_id = g'.primary_speaker_id;
  speaker_status = g'.speaker_status;
  speaker_candidates = g'.speaker_candidates;
  speaker_revision = g'.speaker_revision;
}

abbrev HasOnly : Text → SegmentProjection → SessionProjection → Type 0
HasOnly k g t = (g' : SegmentProjection) × (lookup k t.segments ≡ some g') × OnlySpeaker g g'

-- What an assignment does, if it is applied.
assign_speaker-accepted :
    (s : SessionProjection) (e : SpeakerUpdated) (k : Text)
    → ((assign_speaker s e k).applied ≡ false)
      ⊎ ((g : SegmentProjection) × (lookup k s.segments ≡ some g)
          × (assign_speaker s e k
              ≡ accept
                  (next_speaker e (canonical_speaker s.speaker_aliases e.primary_speaker_id) g)))
unfolding assign_speaker
assign_speaker-accepted s e k = elim (Option-cases (lookup k s.segments)) [
  | inl unknown ↦ inl (rw (unknown, assign_speaker))
  | inr (g, known) ↦
      rw (known, assign_speaker)
        (elim (ladder-cases g.sealed e.speaker_revision g.speaker_revision _ _ _ _ refl refl
          (same_revision-applied _ _ _ _ _ _ _)) [
            | inl not_applied ↦ inl not_applied
            | inr accepted ↦ inr (g, refl, accepted)
          ])
]

-- What a call of `_apply_speaker` may have done.
data SpeakerChange (s : SessionProjection) : SessionProjection × Outcome → Type 0 where
  raised : SpeakerChange s (s, Outcome.assertion_error)
  refused : (r : ProjectionResult) → r.applied ≡ false → SpeakerChange s (s, Outcome.returned r)
  assigned :
      (k : Text) (g : SegmentProjection) (e : SpeakerUpdated) (speaker : Option Text)
      → lookup k s.segments ≡ some g
      → SpeakerChange s (s, Outcome.returned (accept (next_speaker e speaker g)))
  merged :
      (sources : List Text) (target : Text) (revision : ℕ) (t : SessionProjection)
      (r : ProjectionResult)
      → t.segments ≡ rewrite_all sources target revision s.segments
      → r.segment ≡ none
      → SpeakerChange s (t, Outcome.returned r)

assign_or_refuse-SpeakerChange :
    (s : SessionProjection) (e : SpeakerUpdated)
    → SpeakerChange s (s, Outcome.returned (assign_or_refuse s e))
unfolding assign_or_refuse
assign_or_refuse-SpeakerChange s e = elim (Option-cases e.segment_id) [
  | inl absent ↦ rw (absent, assign_or_refuse) (SpeakerChange.refused _ refl)
  | inr (k, present) ↦
      rw (present, assign_or_refuse)
        (elim (assign_speaker-accepted s e k) [
          | inl not_applied ↦ SpeakerChange.refused _ not_applied
          | inr (g, known, accepted) ↦ rw accepted (SpeakerChange.assigned k g e _ known)
        ])
]

merge_into-SpeakerChange :
    (s : SessionProjection) (e : SpeakerUpdated) (target : Option Text)
    → SpeakerChange s (merge_into s e target)
unfolding merge_into
merge_into-SpeakerChange s e none = SpeakerChange.raised
merge_into-SpeakerChange s e (some target) =
    SpeakerChange.merged e.from_speaker_ids target e.speaker_revision _ _ refl refl

apply_speaker-SpeakerChange :
    (s : SessionProjection) (e : SpeakerUpdated) → SpeakerChange s (apply_speaker s e)
unfolding apply_speaker apply_speaker_merge
apply_speaker-SpeakerChange s e = by_operation e.operation
  where
    by_operation :
        (o : SpeakerOperation)
        → SpeakerChange s (elim o as (λ x. SessionProjection × Outcome) [
          | SpeakerOperation.merge ↦ apply_speaker_merge s e
          | _ ↦ (s, Outcome.returned (assign_or_refuse s e))
        ])
    by_operation SpeakerOperation.merge = merge_into-SpeakerChange s e e.to_speaker_id
    by_operation _ = assign_or_refuse-SpeakerChange s e

rewrite-OnlySpeaker :
    (sources : List Text) (target : Text) (revision : ℕ) (g : SegmentProjection)
    → OnlySpeaker g (rewrite sources target revision g)
unfolding rewrite
rewrite-OnlySpeaker sources target revision g = elim (Bool-cases (is_rewritten sources g)) [
  | inl hit ↦ rw (hit, rewrite)
  | inr miss ↦ rw (miss, rewrite)
]

settle-HasOnly :
    {s : SessionProjection} {m : SessionProjection × Outcome} (id : Text)
    → SpeakerChange s m
    → IsValid s
    → (k : Text) (g : SegmentProjection) → lookup k s.segments ≡ some g
    → HasOnly k g (settle id m).0
unfolding settle stored
settle-HasOnly id SpeakerChange.raised v k g known = (g, known, refl)
settle-HasOnly id (SpeakerChange.refused r h) v k g known = (g, rw (h, stored) known, refl)
settle-HasOnly {s} id (SpeakerChange.assigned j g₀ e speaker old) v k g known =
    elim (Bool-cases (text_eq g₀.segment_id k)) [
      | inl hit ↦
          let entry = lookup-AllEntries IsEntry j g₀ s.segments v.entries old in
          let was : g ≡ g₀ = ground (arith, text_eq_iff g₀.segment_id k) in
          (
            next_speaker e speaker g₀,
            rw (lookup-insert g₀.segment_id k (next_speaker e speaker g₀) s.segments, hit),
            rw was refl,
          )
      | inr miss ↦ (
        g,
        rw (lookup-insert g₀.segment_id k (next_speaker e speaker g₀) s.segments, miss) known,
        refl,
      )
    ]
settle-HasOnly {s} id (SpeakerChange.merged sources target revision t r same p) v k g known = (
  rewrite sources target revision g,
  rw (p, stored-none, same, lookup-rewrite_all sources target revision k s.segments, known),
  rewrite-OnlySpeaker sources target revision g,
)

-- In a valid session, a speaker event of any kind leaves a known segment known and changes it at
-- most in its speaker, speaker status, candidates and speaker revision, so whether its
-- translation is current does not change.
pub apply-OnlySpeaker :
    (s : SessionProjection) (e : SpeakerUpdated) (k : Text) (g : SegmentProjection)
    → IsValid s
    → lookup k s.segments ≡ some g
    → (g' : SegmentProjection) × (lookup k (apply s (Event.speaker_updated e)).0.segments ≡ some g')
      × OnlySpeaker g g'
      × (translation_is_current g' ≡ translation_is_current g)
unfolding dispatch translation_is_current
apply-OnlySpeaker s e k g v known =
    let (g', later, only) =
      apply-rule (λ m. HasOnly k g m.0) s (Event.speaker_updated e) (λ _ r _ _. (g, known, refl))
        (λ _.
          settle-HasOnly (event_id (Event.speaker_updated e)) (apply_speaker-SpeakerChange s e) v k
            g known) in
    (g', later, only, ap translation_is_current only)
