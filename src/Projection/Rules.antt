-- ===== src/Projection/Rules.antt =====
-- What holds of every run of `apply`, `seal` and `fold` holds of each case (protocol/projection.py).
use realtime_meeting_transla.Prelude.{
  ◌≡◌, refl, Bool, true, false, none, some, List, [], ◌∷◌, Text, arith, inl, inr, Bool-cases,
  Option-cases,
}
use realtime_meeting_transla.Prelude.Dict.{Dict, lookup, insert, member}
use realtime_meeting_transla.Enums.{RejectionReason}
use realtime_meeting_transla.Events.{Event, event_id}
use realtime_meeting_transla.Projection.State.{
  SegmentProjection, ProjectionResult, SessionProjection, Outcome, Detail, accept, refuse,
}
use realtime_meeting_transla.Projection.Reducer.{dispatch, stored, settle, apply, fold, seal}

-- The two ways through `apply`.
pub apply-rule {ℓ} :
    (P : SessionProjection × Outcome → Type ℓ) (s : SessionProjection) (e : Event)
    → (member (event_id e) s.seen_event_ids ≡ true
        → (r : ProjectionResult) → r.applied ≡ false
        → r.conflict ≡ none
        → P (s, Outcome.returned r))
    → (member (event_id e) s.seen_event_ids ≡ false → P (settle (event_id e) (dispatch s e)))
    → P (apply s e)
unfolding apply
apply-rule P s e old new = elim (Bool-cases (member (event_id e) s.seen_event_ids)) [
  | inl seen ↦ rw (seen, apply) (old seen _ refl refl)
  | inr unseen ↦ rw (unseen, apply) (new unseen)
]

pub stored-none : (b : Bool) (d : Dict SegmentProjection) → stored b none d ≡ d
unfolding stored
stored-none true d = refl
stored-none false d = refl

abbrev pub sealed_copy : SegmentProjection → SegmentProjection
sealed_copy g = record g { sealed = true }

pub seal_first :
    (s : SessionProjection) (k : Text) (g : SegmentProjection)
    → lookup k s.segments ≡ some g
    → g.sealed ≡ false
    → seal s k
      ≡ (record s { segments = insert k (sealed_copy g) s.segments }, accept (sealed_copy g))
unfolding seal
seal_first s k g known unsealed = ground arith

pub seal_again :
    (s : SessionProjection) (k : Text) (g : SegmentProjection)
    → lookup k s.segments ≡ some g
    → g.sealed ≡ true
    → seal s k ≡ (s, refuse RejectionReason.duplicate (Detail.already_sealed k))
unfolding seal
seal_again s k g known closed = ground arith

-- The ways through `seal`.
pub seal-rule {ℓ} :
    (P : SessionProjection × ProjectionResult → Type ℓ) (s : SessionProjection) (k : Text)
    → ((r : ProjectionResult) → r.applied ≡ false → P (s, r))
    → ((g : SegmentProjection)
        → lookup k s.segments ≡ some g
        → g.sealed ≡ false
        → P (record s { segments = insert k (sealed_copy g) s.segments }, accept (sealed_copy g)))
    → P (seal s k)
unfolding seal
seal-rule P s k refusal success = elim (Option-cases (lookup k s.segments)) [
  | inl unknown ↦ rw (unknown, seal) (refusal _ refl)
  | inr (g, known) ↦ elim (Bool-cases g.sealed) [
    | inl closed ↦ rw (seal_again s k g known closed) (refusal _ refl)
    | inr unsealed ↦ rw (seal_first s k g known unsealed) (success g known unsealed)
  ]
]

pub fold-rule {ℓ} :
    (P : SessionProjection → Type ℓ)
    → ((s : SessionProjection) (e : Event) → P s → P (apply s e).0)
    → (es : List Event) (s : SessionProjection) → P s
    → P (fold es s).0
unfolding fold
fold-rule P step [] s p = p
fold-rule P step (e ∷ es) s p =
    by_outcome (apply s e).1 (step s e p) (fold-rule P step es _ (step s e p))
  where
    by_outcome :
        (o : Outcome)
        → P (apply s e).0
        → P (fold es (apply s e).0).0
        → P
            (elim o as (λ x. SessionProjection × List Outcome) [
              | Outcome.assertion_error ↦ ((apply s e).0, Outcome.assertion_error ∷ [])
              | Outcome.returned r ↦
                  ((fold es (apply s e).0).0, Outcome.returned r ∷ (fold es (apply s e).0).1)
            ]).0
    by_outcome Outcome.assertion_error now later = now
    by_outcome (Outcome.returned r) now later = later
