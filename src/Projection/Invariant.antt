-- ===== src/Projection/Invariant.antt =====
-- The invariant of a session (protocol/projection.py), kept by every event and by `seal`.
use realtime_meeting_transla.Prelude.{
  ℕ, ◌≡◌, refl, List, [], ◌∷◌, Text, arith, inl, inr, Bool-cases,
}
use mathlib.Core.Option
use realtime_meeting_transla.Prelude.Dict.{
  Dict, lookup, IsDistinct, insert-IsDistinct, AllEntries, lookup-AllEntries, insert-AllEntries,
}
use realtime_meeting_transla.Events.{Event, event_id}
use realtime_meeting_transla.Projection.State.{SegmentProjection, SessionProjection, Outcome}
use realtime_meeting_transla.Projection.Speakers.{is_rewritten, rewrite, rewrite_all}
use realtime_meeting_transla.Projection.Reducer.{stored, settle, apply, fold, seal}
use realtime_meeting_transla.Projection.Changes.{dispatch-Change}
use realtime_meeting_transla.Projection.Steps.{Revises, Change}
use realtime_meeting_transla.Projection.Rules.{
  apply-rule, stored-none, sealed_copy, seal-rule, fold-rule,
}
use realtime_meeting_transla.Projection.Coherence.{
  IsCoherent, Creates-IsCoherent, Revises-IsCoherent, with_speaker-IsCoherent,
  sealed_copy-IsCoherent,
}

-- An entry of `segments`: the key is the id of the segment.
abbrev pub IsEntry : Text → SegmentProjection → Type 0
IsEntry k g = (g.segment_id ≡ k) × IsCoherent g

pub record IsValid (s : SessionProjection) : Type 0 where
  pub entries : AllEntries IsEntry s.segments
  pub distinct : IsDistinct s.segments

pub Revises-segment_id : {g g' : SegmentProjection} → Revises g g' → g'.segment_id ≡ g.segment_id
Revises-segment_id (Revises.partial e _) = refl
Revises-segment_id (Revises.final e _) = refl
Revises-segment_id (Revises.language e _) = refl
Revises-segment_id (Revises.speaker e _ _) = refl
Revises-segment_id (Revises.started e _) = refl
Revises-segment_id (Revises.translation e _ _ _) = refl
Revises-segment_id (Revises.failed e _) = refl

module _ (sources : List Text) (target : Text) (revision : ℕ) where
  rewrite-IsEntry :
      (k : Text) (g : SegmentProjection)
      → IsEntry k g
      → IsEntry k (rewrite sources target revision g)
  unfolding rewrite
  rewrite-IsEntry k g h = elim (Bool-cases (is_rewritten sources g)) [
    | inl hit ↦ rw (hit, rewrite) (h.0, with_speaker-IsCoherent target revision h.1)
    | inr miss ↦ rw (miss, rewrite) h
  ]

  rewrite_all-entries :
      (d : Dict SegmentProjection)
      → AllEntries IsEntry d
      → AllEntries IsEntry (rewrite_all sources target revision d)
  unfolding rewrite_all
  rewrite_all-entries [] h = tt
  rewrite_all-entries ((k, g) ∷ d) h = (rewrite-IsEntry k g h.0, rewrite_all-entries d h.1)

  pub lookup-rewrite_all :
      (k : Text) (d : Dict SegmentProjection)
      → lookup k (rewrite_all sources target revision d)
        ≡ Option.map (rewrite sources target revision) (lookup k d)
  unfolding rewrite_all lookup
  lookup-rewrite_all k [] = refl
  lookup-rewrite_all k ((j, g) ∷ d) = ground (arith, lookup-rewrite_all k d)

  rewrite_all-IsDistinct :
      (d : Dict SegmentProjection)
      → IsDistinct d
      → IsDistinct (rewrite_all sources target revision d)
  unfolding rewrite_all
  rewrite_all-IsDistinct [] h = tt
  rewrite_all-IsDistinct ((k, g) ∷ d) h =
      (rw (lookup-rewrite_all k d, h.0), rewrite_all-IsDistinct d h.1)

settle-IsValid :
    {s : SessionProjection} {m : SessionProjection × Outcome} (id : Text)
    → Change s m
    → IsValid s
    → IsValid (settle id m).0
unfolding settle stored
settle-IsValid id Change.raised v = v
settle-IsValid {s} id (Change.refused r h) v = record {
  entries = rw h v.entries;
  distinct = rw h v.distinct;
}
settle-IsValid {s} id (Change.created g new c) v = record {
  entries =
      insert-AllEntries IsEntry g.segment_id g s.segments (refl, Creates-IsCoherent c) v.entries;
  distinct = insert-IsDistinct g.segment_id g s.segments v.distinct;
}
settle-IsValid {s} id (Change.revised k g g' known unsealed r) v = record {
  entries =
      insert-AllEntries IsEntry g'.segment_id g' s.segments
        (refl, Revises-IsCoherent r (lookup-AllEntries IsEntry k g s.segments v.entries known).1)
        v.entries;
  distinct = insert-IsDistinct g'.segment_id g' s.segments v.distinct;
}
settle-IsValid {s} id (Change.merged sources target revision r _ p _) v = record {
  entries = rw (p, stored-none) (rewrite_all-entries sources target revision s.segments v.entries);
  distinct =
      rw (p, stored-none) (rewrite_all-IsDistinct sources target revision s.segments v.distinct);
}

-- Every event keeps the invariant, whatever it is and however `apply` ends.
pub apply-IsValid : (s : SessionProjection) (e : Event) → IsValid s → IsValid (apply s e).0
apply-IsValid s e v =
    apply-rule (λ m. IsValid m.0) s e (λ _ r _ _. v)
      (λ _. settle-IsValid (event_id e) (dispatch-Change s e) v)

-- `seal` of any id keeps a valid session valid.
pub seal-IsValid : (s : SessionProjection) (k : Text) → IsValid s → IsValid (seal s k).0
seal-IsValid s k v =
    seal-rule (λ m. IsValid m.0) s k (λ r _. v)
      (λ g known _.
        let entry = lookup-AllEntries IsEntry k g s.segments v.entries known in
        record {
          entries =
              insert-AllEntries IsEntry k (sealed_copy g) s.segments
                (entry.0, sealed_copy-IsCoherent entry.1) v.entries;
          distinct = insert-IsDistinct k (sealed_copy g) s.segments v.distinct;
        })

-- Any run of events from a valid session ends in a valid one: each key is the id of its segment,
-- no key stands twice, an echoed revision is at most the revision it echoes, a completed
-- translation has both echoes, and only a partial segment has partial text.
pub fold-IsValid : (es : List Event) (s : SessionProjection) → IsValid s → IsValid (fold es s).0
fold-IsValid es s = fold-rule IsValid apply-IsValid es s
