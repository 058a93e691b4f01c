-- ===== src/Projection/Refusals.antt =====
-- What a refused event leaves behind (protocol/projection.py), and when a transcript is applied.
use realtime_meeting_transla.Prelude.{
  ◌≡◌, refl, false, Option, none, some, List, [], ◌∷◌, ◌++◌, Text, arith,
}
use mathlib.Core.Path.{subst, ap, ◌∙◌}
use realtime_meeting_transla.Events.{Event, event_id}
use realtime_meeting_transla.Projection.State.{
  IntegrityConflict, ProjectionResult, SessionProjection, Outcome,
}
use realtime_meeting_transla.Projection.Reducer.{settle, stored, noted, apply}
use realtime_meeting_transla.Projection.Changes.{dispatch-Change}
use realtime_meeting_transla.Projection.Steps.{Change}
use realtime_meeting_transla.Projection.Rules.{apply-rule}

-- The session behind a refusal: segments and aliases as before, and the conflict of the refusal,
-- if it has one, at the end of `conflicts`.
pub record Untouched (s : SessionProjection) (r : ProjectionResult) (t : SessionProjection)
    : Type 0 where
  pub segments : t.segments ≡ s.segments
  pub aliases : t.speaker_aliases ≡ s.speaker_aliases
  pub conflicts :
      t.conflicts
      ≡ elim r.conflict [ none ↦ s.conflicts | some conflict ↦ s.conflicts ++ conflict ∷ [] ]

noted_lem :
    (found : Option IntegrityConflict) (conflicts : List IntegrityConflict)
    → noted found conflicts
      ≡ elim found [ none ↦ conflicts | some conflict ↦ conflicts ++ conflict ∷ [] ]
unfolding noted
noted_lem none conflicts = refl
noted_lem (some conflict) conflicts = refl

abbrev Refuses : SessionProjection → SessionProjection × Outcome → Type 0
Refuses s (t, Outcome.assertion_error) = Unit
Refuses s (t, Outcome.returned r) = r.applied ≡ false → Untouched s r t

settle-Refuses :
    {s : SessionProjection} {m : SessionProjection × Outcome} (id : Text)
    → Change s m
    → Refuses s (settle id m)
unfolding settle stored
settle-Refuses id Change.raised = tt
settle-Refuses id (Change.refused r _) =
    λ h. record { segments = rw (h, stored); aliases = refl; conflicts = noted_lem r.conflict _ }
settle-Refuses id (Change.created g _ _) = λ h. absurd (cc)
settle-Refuses id (Change.revised _ _ _ _ _ _) = λ h. absurd (cc)
settle-Refuses id (Change.merged _ _ _ r a _ _) = λ h. absurd (ground arith)

Refuses-elim :
    (s : SessionProjection) (m : SessionProjection × Outcome) (r : ProjectionResult)
    → Refuses s m
    → m.1 ≡ Outcome.returned r
    → r.applied ≡ false
    → Untouched s r m.0
Refuses-elim s (t, Outcome.assertion_error) r k e h = absurd (cc)
Refuses-elim s (t, Outcome.returned r') r k e h =
    let same : r' ≡ r = cc in subst (λ x. Untouched s x t) same (k (ap (λ x. x.applied) same ∙ h))

-- An event that is refused changes no segment and no alias; its conflict, if it has one, is added
-- at the end of `conflicts`, and nothing else is.
pub apply-Untouched :
    (s : SessionProjection) (e : Event) (r : ProjectionResult)
    → (apply s e).1 ≡ Outcome.returned r
    → r.applied ≡ false
    → Untouched s r (apply s e).0
apply-Untouched s e r = Refuses-elim s (apply s e) r (
    apply-rule (Refuses s) s e
      (λ _ q _ no_conflict _. record {
        segments = refl;
        aliases = refl;
        conflicts = rw no_conflict refl;
      })
      (λ _. settle-Refuses (event_id e) (dispatch-Change s e)))
