-- ===== src/Projection/Progress.antt =====
-- How a segment may move on while events are folded (protocol/projection.py).
use realtime_meeting_transla.Prelude.{
  ℕ, ◌≤◌, ◌≡◌, refl, ap, ◌∙◌, Bool, true, false, some, List, Text, arith, inl, inr, sym, Bool-cases,
  if◌then◌else◌, text_eq, text_eq_iff,
}
use mathlib.Core.Path.{subst}
use native.Mathlib.Nat.{le_refl, le_trans}
use realtime_meeting_transla.Prelude.Dict.{lookup, insert, lookup-AllEntries, lookup-insert}
use realtime_meeting_transla.Events.{Event, event_id}
use realtime_meeting_transla.Projection.State.{SegmentProjection, SessionProjection, Outcome}
use realtime_meeting_transla.Projection.Speakers.{is_rewritten, rewrite}
use realtime_meeting_transla.Projection.Reducer.{settle, stored, apply, fold, seal}
use realtime_meeting_transla.Projection.Changes.{dispatch-Change}
use realtime_meeting_transla.Projection.Steps.{Revises, Change}
use realtime_meeting_transla.Projection.Invariant.{
  IsEntry, IsValid, Revises-segment_id, lookup-rewrite_all, apply-IsValid,
}
use realtime_meeting_transla.Projection.Rules.{
  stored-none, apply-rule, seal_first, seal_again, fold-rule, sealed_copy,
}

-- A sealed segment does not change.
abbrev pub Frozen : Bool → SegmentProjection → SegmentProjection → Type 0
Frozen true g g' = g' ≡ g
Frozen false g g' = Unit

-- `g'` is `g` at a later time: its identity stays, its content and language revisions do not fall,
-- and once sealed nothing of it changes.
pub record Follows (g g' : SegmentProjection) : Type 0 where
  pub same_segment : g'.segment_id ≡ g.segment_id
  pub same_utterance : g'.utterance_id ≡ g.utterance_id
  pub same_parents : g'.parent_segment_ids ≡ g.parent_segment_ids
  pub content_le : g.content_revision ≤ g'.content_revision
  pub language_le : g.language_revision ≤ g'.language_revision
  pub frozen : Frozen g.sealed g g'

-- The segment `k` is still known, and follows what it was.
abbrev pub Keeps : Text → SegmentProjection → SessionProjection → Type 0
Keeps k g s = (g' : SegmentProjection) × (lookup k s.segments ≡ some g') × Follows g g'

Frozen-refl : (b : Bool) (g : SegmentProjection) → Frozen b g g
Frozen-refl true g = refl
Frozen-refl false g = tt

Frozen-open : {b : Bool} (g g' : SegmentProjection) → b ≡ false → Frozen b g g'
Frozen-open g g' h = subst (λ x. Frozen x g g') (sym h) tt

Frozen-trans :
    (b : Bool) (g g' g'' : SegmentProjection)
    → g.sealed ≡ b
    → Frozen b g g'
    → Frozen g'.sealed g' g''
    → Frozen b g g''
Frozen-trans true g g' g'' e p q =
    let closed : g'.sealed ≡ true = ap (λ x. x.sealed) p ∙ e in
    subst (λ x. Frozen x g' g'') closed q ∙ p
Frozen-trans false g g' g'' e p q = tt

Follows-refl : (g : SegmentProjection) → Follows g g
Follows-refl g = record {
  same_segment = refl;
  same_utterance = refl;
  same_parents = refl;
  content_le = le_refl _;
  language_le = le_refl _;
  frozen = Frozen-refl g.sealed g;
}

Follows-trans : {a b c : SegmentProjection} → Follows a b → Follows b c → Follows a c
Follows-trans {a} {b} {c} p q = record {
  same_segment = q.same_segment ∙ p.same_segment;
  same_utterance = q.same_utterance ∙ p.same_utterance;
  same_parents = q.same_parents ∙ p.same_parents;
  content_le = le_trans p.content_le q.content_le;
  language_le = le_trans p.language_le q.language_le;
  frozen = Frozen-trans a.sealed a b c refl p.frozen q.frozen;
}

-- What a revision does to the fields that `Follows` reads.
Revises-keeps :
    {g g' : SegmentProjection}
    → Revises g g'
    → (g'.utterance_id ≡ g.utterance_id)
      × (g'.parent_segment_ids ≡ g.parent_segment_ids)
      × (g.content_revision ≤ g'.content_revision)
      × (g.language_revision ≤ g'.language_revision)
Revises-keeps (Revises.partial e h) = (refl, refl, omega arith, omega arith)
Revises-keeps (Revises.final e h) = (refl, refl, omega arith, omega arith)
Revises-keeps (Revises.language e h) = (refl, refl, omega arith, omega arith)
Revises-keeps (Revises.speaker e _ h) = (refl, refl, omega arith, omega arith)
Revises-keeps (Revises.started e h) = (refl, refl, omega arith, omega arith)
Revises-keeps (Revises.translation e _ _ h) = (refl, refl, omega arith, omega arith)
Revises-keeps (Revises.failed e h) = (refl, refl, omega arith, omega arith)

Revises-Follows : {g g' : SegmentProjection} → g.sealed ≡ false → Revises g g' → Follows g g'
Revises-Follows {g} {g'} unsealed r =
    let kept = Revises-keeps r in
    record {
      same_segment = Revises-segment_id r;
      same_utterance = kept.0;
      same_parents = kept.1;
      content_le = kept.2;
      language_le = kept.3;
      frozen = Frozen-open g g' unsealed;
    }

rewrite-Follows :
    (sources : List Text) (target : Text) (revision : ℕ) (g : SegmentProjection)
    → Follows g (rewrite sources target revision g)
unfolding rewrite is_rewritten
rewrite-Follows sources target revision g = elim (Bool-cases (is_rewritten sources g)) [
  | inl hit ↦
      rw (hit, rewrite)
        (record {
          same_segment = refl;
          same_utterance = refl;
          same_parents = refl;
          content_le = le_refl _;
          language_le = le_refl _;
          frozen = Frozen-open g _ (ground arith);
        })
  | inr miss ↦ rw (miss, rewrite) (Follows-refl g)
]

-- A write of `v` over the value of `j`, seen at the key `k`.
insert-Keeps :
    (j k : Text) (v g : SegmentProjection) (s : SessionProjection)
    → lookup k s.segments ≡ some g
    → (text_eq j k ≡ true → Follows g v)
    → (g' : SegmentProjection) × (lookup k (insert j v s.segments) ≡ some g') × Follows g g'
insert-Keeps j k v g s known same = elim (Bool-cases (text_eq j k)) [
  | inl hit ↦ (v, rw (lookup-insert j k v s.segments, hit), same hit)
  | inr miss ↦ (g, rw (lookup-insert j k v s.segments, miss) known, Follows-refl g)
]

settle-Keeps :
    {s : SessionProjection} {m : SessionProjection × Outcome} (id : Text)
    → Change s m
    → IsValid s
    → (k : Text) (g : SegmentProjection) → lookup k s.segments ≡ some g
    → Keeps k g (settle id m).0
unfolding settle stored
settle-Keeps id Change.raised v k g known = (g, known, Follows-refl g)
settle-Keeps id (Change.refused r h) v k g known = (g, rw (h, stored) known, Follows-refl g)
settle-Keeps {s} id (Change.created g₀ new c) v k g known =
    insert-Keeps g₀.segment_id k g₀ g s known
      (λ h. absurd (ground (arith, text_eq_iff g₀.segment_id k)))
settle-Keeps {s} id (Change.revised j g₀ g₁ old unsealed r) v k g known =
    insert-Keeps g₁.segment_id k g₁ g s known (λ h.
      let entry = lookup-AllEntries IsEntry j g₀ s.segments v.entries old in
      let same = Revises-segment_id r in
      let here : g ≡ g₀ = ground (arith, text_eq_iff g₁.segment_id k) in
      rw here (Revises-Follows unsealed r))
settle-Keeps {s} id (Change.merged sources target revision r _ p _) v k g known = (
  rewrite sources target revision g,
  rw (p, stored-none, lookup-rewrite_all sources target revision k s.segments, known),
  rewrite-Follows sources target revision g,
)

-- One event.
pub apply-Keeps :
    (s : SessionProjection) (e : Event)
    → IsValid s
    → (k : Text) (g : SegmentProjection) → lookup k s.segments ≡ some g
    → Keeps k g (apply s e).0
apply-Keeps s e v k g known =
    apply-rule (λ m. Keeps k g m.0) s e (λ _ r _ _. (g, known, Follows-refl g))
      (λ _. settle-Keeps (event_id e) (dispatch-Change s e) v k g known)

-- From a valid session, over any run of events, a known segment stays known: its segment id,
-- utterance id and parents stay, its content and language revisions do not fall, and if it was
-- sealed nothing of it changes.
pub fold-Keeps :
    (es : List Event) (s : SessionProjection)
    → IsValid s
    → (k : Text) (g : SegmentProjection) → lookup k s.segments ≡ some g
    → Keeps k g (fold es s).0
fold-Keeps es s v k g known =
    (fold-rule (λ t. IsValid t × Keeps k g t)
      (λ t e h.
        let (now, at_now, so_far) = h.1 in
        let (next, at_next, step) = apply-Keeps t e h.0 k now at_now in
        (apply-IsValid t e h.0, (next, at_next, Follows-trans so_far step)))
      es s (v, (g, known, Follows-refl g))).1

-- From a valid session, a sealed segment is never changed again, by any run of events.
pub fold_sealed :
    (es : List Event) (s : SessionProjection) (k : Text) (g : SegmentProjection)
    → IsValid s
    → lookup k s.segments ≡ some g
    → g.sealed ≡ true
    → lookup k (fold es s).0.segments ≡ some g
fold_sealed es s k g v known closed =
    let (g', later, follows) = fold-Keeps es s v k g known in
    let same = subst (λ b. Frozen b g g') closed follows.frozen in later ∙ ap some same

-- `seal` of a known segment sets the flag of that segment, on the first call and on every later
-- one, and changes no other segment.
pub lookup-seal :
    (s : SessionProjection) (k j : Text) (g : SegmentProjection)
    → lookup k s.segments ≡ some g
    → lookup j (seal s k).0.segments
      ≡ (if text_eq k j then some (sealed_copy g) else lookup j s.segments)
lookup-seal s k j g known = elim (Bool-cases g.sealed) [
  | inl closed ↦
      let same : sealed_copy g ≡ g = ap (λ b. record g { sealed = b }) (sym closed) in
      rw (seal_again s k g known closed, same) (ground (arith, text_eq_iff k j))
  | inr unsealed ↦
      rw (seal_first s k g known unsealed) (lookup-insert k j (sealed_copy g) s.segments)
]
