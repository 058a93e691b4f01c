-- ===== src/Projection/Replay.antt =====
-- Idempotence of the reducer (protocol/projection.py): `seen_event_ids` and the replay of a log.
use realtime_meeting_transla.Prelude.{
  ◌≡◌, refl, ◌∙◌, sym, ap, true, ◌||◌, List, [], ◌∷◌, Text, arith, ◌⊎◌, inl, inr, text_eq,
  text_eq_iff, text_eq_refl,
}
use mathlib.Core.Path.{subst}
use realtime_meeting_transla.Prelude.Dict.{member, member-add}
use realtime_meeting_transla.Enums.{RejectionReason}
use realtime_meeting_transla.Events.{Event, event_id}
use realtime_meeting_transla.Projection.State.{
  ProjectionResult, SessionProjection, Outcome, Detail, refuse,
}
use realtime_meeting_transla.Projection.Reducer.{settle, apply, fold}
use realtime_meeting_transla.Projection.Changes.{dispatch-Change}
use realtime_meeting_transla.Projection.Steps.{Change}
use realtime_meeting_transla.Projection.Rules.{apply-rule, fold-rule}

-- An event whose id was seen is refused as a duplicate, and nothing at all changes.
pub apply_seen :
    (s : SessionProjection) (e : Event)
    → member (event_id e) s.seen_event_ids ≡ true
    → apply s e ≡ (
      s,
      Outcome.returned (refuse RejectionReason.duplicate (Detail.already_applied (event_id e))),
    )
unfolding apply
apply_seen s e h = rw (h, apply)

-- What `apply` does to the ids, by how it ends.
abbrev Marks : Event → SessionProjection → SessionProjection × Outcome → Type 0
Marks e s (t, Outcome.assertion_error) = t ≡ s
Marks e s (t, Outcome.returned r) =
    (id : Text)
    → member id t.seen_event_ids ≡ (text_eq (event_id e) id || member id s.seen_event_ids)

settle-Marks :
    {s : SessionProjection} {m : SessionProjection × Outcome} (e : Event)
    → Change s m
    → Marks e s (settle (event_id e) m)
unfolding settle
settle-Marks e Change.raised = refl
settle-Marks {s} e (Change.refused r h) = λ id. member-add id (event_id e) s.seen_event_ids
settle-Marks {s} e (Change.created g _ _) = λ id. member-add id (event_id e) s.seen_event_ids
settle-Marks {s} e (Change.revised _ _ _ _ _ _) = λ id. member-add id (event_id e) s.seen_event_ids
settle-Marks {s} e (Change.merged _ _ _ _ _ _ _) = λ id. member-add id (event_id e) s.seen_event_ids

apply-Marks : (s : SessionProjection) (e : Event) → Marks e s (apply s e)
apply-Marks s e =
    apply-rule (Marks e s) s e (λ seen r _ _ id. ground (arith, text_eq_iff (event_id e) id))
      (λ _. settle-Marks e (dispatch-Change s e))

Marks-raised :
    (e : Event) (s : SessionProjection) (m : SessionProjection × Outcome)
    → Marks e s m
    → m.1 ≡ Outcome.assertion_error
    → m.0 ≡ s
Marks-raised e s (t, Outcome.assertion_error) k h = k
Marks-raised e s (t, Outcome.returned r) k h = absurd (cc)

Marks-returned :
    (e : Event) (s : SessionProjection) (m : SessionProjection × Outcome) (r : ProjectionResult)
    → Marks e s m
    → m.1 ≡ Outcome.returned r
    → (id : Text)
    → member id m.0.seen_event_ids ≡ (text_eq (event_id e) id || member id s.seen_event_ids)
Marks-returned e s (t, Outcome.assertion_error) r k h = absurd (cc)
Marks-returned e s (t, Outcome.returned r') r k h = k

module _ (es : List Event) (s : SessionProjection) (e : Event) where
  fold_raised :
      (apply s e).1 ≡ Outcome.assertion_error
      → fold (e ∷ es) s ≡ ((apply s e).0, Outcome.assertion_error ∷ [])
  unfolding fold
  fold_raised h = rw (h, fold)

  pub fold_returned :
      (r : ProjectionResult)
      → (apply s e).1 ≡ Outcome.returned r
      → fold (e ∷ es) s
        ≡ ((fold es (apply s e).0).0, Outcome.returned r ∷ (fold es (apply s e).0).1)
  unfolding fold
  fold_returned r h = rw (h, fold)

pub Outcome-cases :
    (o : Outcome)
    → (o ≡ Outcome.assertion_error) ⊎ ((r : ProjectionResult) × (o ≡ Outcome.returned r))
Outcome-cases Outcome.assertion_error = inl refl
Outcome-cases (Outcome.returned r) = inr (r, refl)

-- Ids that were seen stay seen.
abbrev HasSeen : Text → SessionProjection → Type 0
HasSeen id s = member id s.seen_event_ids ≡ true

apply-HasSeen :
    (id : Text) (s : SessionProjection) (e : Event) → HasSeen id s → HasSeen id (apply s e).0
apply-HasSeen id s e h = elim (Outcome-cases (apply s e).1) [
  | inl raised ↦ subst (HasSeen id) (sym (Marks-raised e s (apply s e) (apply-Marks s e) raised)) h
  | inr (r, returned) ↦
      ground (arith, Marks-returned e s (apply s e) r (apply-Marks s e) returned id)
]

-- A log that led to `t` and is folded once more leaves `t` as it is.
fold_again : (es : List Event) (s t : SessionProjection) → (fold es s).0 ≡ t → (fold es t).0 ≡ t
fold_again [] s t h = unfold fold in refl
fold_again (e ∷ es) s t h = elim (Outcome-cases (apply s e).1) [
  | inl raised ↦
      let kept = Marks-raised e s (apply s e) (apply-Marks s e) raised in
      let ended = ap (λ m. m.0) (fold_raised es s e raised) in
      let same : s ≡ t = sym kept ∙ sym ended ∙ h in subst (λ u. (fold (e ∷ es) u).0 ≡ t) same h
  | inr (r, returned) ↦
      let rest = ap (λ m. m.0) (fold_returned es s e r returned) in
      let later : (fold es (apply s e).0).0 ≡ t = sym rest ∙ h in
      let now : HasSeen (event_id e) (apply s e).0 = ground (
        arith,
        Marks-returned e s (apply s e) r (apply-Marks s e) returned (event_id e),
        text_eq_refl (event_id e),
      ) in
      let then_seen : HasSeen (event_id e) t =
        subst (HasSeen (event_id e)) later
          (fold-rule (HasSeen (event_id e)) (apply-HasSeen (event_id e)) es (apply s e).0 now) in
      let refused = apply_seen t e then_seen in
      ap (λ m. m.0) (fold_returned es t e _ (ap (λ m. m.1) refused))
      ∙ ap (λ u. (fold es u).0) (ap (λ m. m.0) refused)
      ∙ fold_again es (apply s e).0 t later
]

-- Folding a whole log a second time changes nothing, whatever session the first fold started
-- from.
pub fold-fold :
    (es : List Event) (s : SessionProjection) → (fold es (fold es s).0).0 ≡ (fold es s).0
fold-fold es s = fold_again es s (fold es s).0 refl
