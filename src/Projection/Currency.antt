-- ===== src/Projection/Currency.antt =====
-- Which events leave a translation current (protocol/projection.py).
use realtime_meeting_transla.Prelude.{
  ℕ, ◌≡◌, refl, true, false, Option, none, some, Text, arith, inl, inr, Bool-cases, Option-cases,
  text_eq, text_eq_iff, List, ◌≤◌, sym, ◌∙◌,
}
use mathlib.Core.Path.{subst}
use mathlib.Core.Option.{some-injective}
use realtime_meeting_transla.Prelude.Dict.{lookup, lookup-AllEntries, lookup-insert}
use realtime_meeting_transla.Events.{Event, event_id}
use realtime_meeting_transla.Events.Transcripts.{TranslationFinal}
use realtime_meeting_transla.Projection.State.{
  SegmentProjection, SessionProjection, Outcome, Dimension, Payload, Detail, accept,
}
use realtime_meeting_transla.Projection.Speakers.{rewrite, is_rewritten}
use realtime_meeting_transla.Projection.Reducer.{apply, settle, stored}
use realtime_meeting_transla.Projection.Views.{echoes, is_completed, translation_is_current}
use realtime_meeting_transla.Projection.Changes.{dispatch-Change}
use realtime_meeting_transla.Projection.Steps.{Revises, Change}
use realtime_meeting_transla.Projection.Handlers.{same_revision-applied}
use realtime_meeting_transla.Projection.Updates.{apply_translation_final, next_translation}
use realtime_meeting_transla.Projection.Invariant.{
  IsEntry, IsValid, Revises-segment_id, lookup-rewrite_all,
}
use realtime_meeting_transla.Projection.Coherence.{IsCoherent, AtMost}
use realtime_meeting_transla.Projection.Rules.{stored-none, apply-rule}

-- Text and language are of the revisions that they were.
abbrev pub SameSource : SegmentProjection → SegmentProjection → Type 0
SameSource g g' =
    (g'.content_revision ≡ g.content_revision) × (g'.language_revision ≡ g.language_revision)

echoes-eq : (o : Option ℕ) (n : ℕ) → echoes o n ≡ true → o ≡ some n
unfolding echoes
echoes-eq none n h = absurd (ground arith)
echoes-eq (some m) n h = ground arith

-- A current translation is completed and echoes both revisions.
current-echoes :
    (g : SegmentProjection)
    → translation_is_current g ≡ true
    → (g.translated_from_content_revision ≡ some g.content_revision)
      × (g.translated_from_language_revision ≡ some g.language_revision)
unfolding translation_is_current
current-echoes g h = ground (
  arith,
  echoes-eq g.translated_from_content_revision g.content_revision,
  echoes-eq g.translated_from_language_revision g.language_revision,
)

AtMost-some : (o : Option ℕ) (m n : ℕ) → AtMost o n → o ≡ some m → m ≤ n
AtMost-some none m n h e = absurd (ground arith)
AtMost-some (some k) m n h e = ground arith

-- What changes the content or the language revision leaves no current translation.
Revises-SameSource :
    (g g' : SegmentProjection)
    → Revises g g'
    → IsCoherent g
    → (g'.translated_from_content_revision ≡ some g'.content_revision)
      × (g'.translated_from_language_revision ≡ some g'.language_revision)
    → SameSource g g'
Revises-SameSource g g' (Revises.partial e newer) c h = absurd (
    omega (
      arith,
      AtMost-some g.translated_from_content_revision e.content_revision g.content_revision
          c.content_echo h.0,
    ))
Revises-SameSource g g' (Revises.final e newer) c h = absurd (ground arith)
Revises-SameSource g g' (Revises.language e newer) c h = absurd (ground arith)
Revises-SameSource g g' (Revises.speaker e _ newer) c h = (refl, refl)
Revises-SameSource g g' (Revises.started e _) c h = (refl, refl)
Revises-SameSource g g' (Revises.translation e _ _ _) c h = (refl, refl)
Revises-SameSource g g' (Revises.failed e _) c h = (refl, refl)

rewrite-SameSource :
    (sources : List Text) (target : Text) (revision : ℕ) (g : SegmentProjection)
    → SameSource g (rewrite sources target revision g)
unfolding rewrite
rewrite-SameSource sources target revision g = elim (Bool-cases (is_rewritten sources g)) [
  | inl hit ↦ rw (hit, rewrite) (refl, refl)
  | inr miss ↦ rw (miss, rewrite) (refl, refl)
]

-- The segment `k`, where it was `g`, is of the same source whenever its translation is current.
abbrev GuardsAt : SegmentProjection → Option SegmentProjection → Type 0
GuardsAt g found =
    (g' : SegmentProjection) → found ≡ some g' → translation_is_current g' ≡ true → SameSource g g'

abbrev Guards : Text → SegmentProjection → SessionProjection → Type 0
Guards k g t = GuardsAt g (lookup k t.segments)

same-Guards :
    (g : SegmentProjection) (found : Option SegmentProjection) → found ≡ some g → GuardsAt g found
same-Guards g found known g' h current =
    let same : g' ≡ g = some-injective g' g (sym h ∙ known) in rw same (refl, refl)

settle-Guards :
    {s : SessionProjection} {m : SessionProjection × Outcome} (id : Text)
    → Change s m
    → IsValid s
    → (k : Text) (g : SegmentProjection) → lookup k s.segments ≡ some g
    → Guards k g (settle id m).0
unfolding settle stored
settle-Guards {s} id Change.raised v k g known = same-Guards g _ known
settle-Guards {s} id (Change.refused r h) v k g known = same-Guards g _ (rw (h, stored) known)
settle-Guards {s} id (Change.created g₀ new c) v k g known =
    let other : text_eq g₀.segment_id k ≡ false = ground (arith, text_eq_iff g₀.segment_id k) in
    same-Guards g _ (rw (lookup-insert g₀.segment_id k g₀ s.segments, other) known)
settle-Guards {s} id (Change.revised j g₀ g₁ old unsealed r) v k g known =
    elim (Bool-cases (text_eq g₁.segment_id k)) [
      | inl hit ↦ λ g' h current.
          let entry = lookup-AllEntries IsEntry j g₀ s.segments v.entries old in
          let same_id = Revises-segment_id r in
          let was : g ≡ g₀ = ground (arith, text_eq_iff g₁.segment_id k) in
          let now : g₁ ≡ g' =
            some-injective g₁ g'
              (sym (rw (lookup-insert g₁.segment_id k g₁ s.segments, hit)) ∙ h) in
          rw was (
            subst (SameSource g₀) now (
              Revises-SameSource g₀ g₁ r entry.1 (
                current-echoes g₁
                  (subst (λ x. translation_is_current x ≡ true) (sym now) current))))
      | inr miss ↦ same-Guards g _ (rw (lookup-insert g₁.segment_id k g₁ s.segments, miss) known)
    ]
settle-Guards {s} id (Change.merged sources target revision r _ p _) v k g known = λ g' h current.
    let now : rewrite sources target revision g ≡ g' =
      some-injective (rewrite sources target revision g) g' (
        sym (rw (p, stored-none, lookup-rewrite_all sources target revision k s.segments, known))
        ∙ h) in
    subst (SameSource g) now (rewrite-SameSource sources target revision g)

-- In a valid session, where the translation of a known segment is current after an event, the
-- event has moved neither the content nor the language revision of that segment.
pub apply-SameSource :
    (s : SessionProjection) (e : Event) (k : Text) (g g' : SegmentProjection)
    → IsValid s
    → lookup k s.segments ≡ some g
    → lookup k (apply s e).0.segments ≡ some g'
    → translation_is_current g' ≡ true
    → SameSource g g'
apply-SameSource s e k g g' v known =
    apply-rule (λ m. Guards k g m.0) s e (λ _ r _ _. same-Guards g _ known)
      (λ _. settle-Guards (event_id e) (dispatch-Change s e) v k g known) g'

-- What an accepted translation stores, and what it was compared with.
accepted_translation :
    (s : SessionProjection) (e : TranslationFinal) (g : SegmentProjection)
    → apply_translation_final s e ≡ accept g
    → (old : SegmentProjection) × (lookup e.segment_id s.segments ≡ some old)
      × (next_translation e old ≡ g)
      × (e.translated_from_content_revision ≡ old.content_revision)
      × (e.translated_from_language_revision ≡ old.language_revision)
unfolding apply_translation_final
accepted_translation s e g h = elim (Option-cases (lookup e.segment_id s.segments)) [
  | inl unknown ↦ absurd (ground arith)
  | inr (old, known) ↦
      let repeated =
        same_revision-applied e.segment_id e.envelope.event_id Dimension.translation
          e.translation_revision (Payload.translated old.translation_text)
          (Payload.translated e.text) (Detail.translation_repeated e.translation_revision) in
      (old, known, ground arith, ground arith, ground arith)
]

-- A translation that `_apply_translation_final` accepts is current, and carries the text and the
-- revision of its event.
pub apply_translation_final-current :
    (s : SessionProjection) (e : TranslationFinal) (g : SegmentProjection)
    → apply_translation_final s e ≡ accept g
    → (translation_is_current g ≡ true)
      × (g.translation_text ≡ e.text)
      × (g.translation_revision ≡ e.translation_revision)
unfolding translation_is_current echoes is_completed
apply_translation_final-current s e g h =
    let (old, known, same, content, language) = accepted_translation s e g h in
    subst
      (λ x.
        (translation_is_current x ≡ true)
        × (x.translation_text ≡ e.text)
        × (x.translation_revision ≡ e.translation_revision))
      same (ground arith)
