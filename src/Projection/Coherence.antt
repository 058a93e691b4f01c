-- ===== src/Projection/Coherence.antt =====
-- Which segments are coherent, and that every step keeps them so (protocol/projection.py).
use realtime_meeting_transla.Prelude.{
  ℕ, ◌≤◌, ◌≡◌, refl, Bool, true, false, Option, none, some, [], Text, arith, if◌then◌else◌,
}
use realtime_meeting_transla.Enums.{SegmentStatus, TranslationStatus}
use realtime_meeting_transla.Projection.State.{SegmentProjection, SessionProjection}
use realtime_meeting_transla.Projection.Speakers.{with_speaker}
use realtime_meeting_transla.Projection.Handlers.{status_after_final}
use realtime_meeting_transla.Projection.Updates.{is_accepted}
use realtime_meeting_transla.Projection.Steps.{Revises, Creates}
use realtime_meeting_transla.Projection.Rules.{sealed_copy}

-- An echo, if there is one, is at most the revision that it echoes.
abbrev pub AtMost : Option ℕ → ℕ → Type 0
AtMost none n = Unit
AtMost (some m) n = m ≤ n

-- A completed translation has its echo.
abbrev pub EchoPresent : TranslationStatus → Option ℕ → Type 0
EchoPresent TranslationStatus.completed none = ⊥
EchoPresent _ _ = Unit

-- Only a partial segment has partial text.
abbrev pub NoPartialText : SegmentStatus → Text → Type 0
NoPartialText SegmentStatus.partial t = Unit
NoPartialText _ t = t ≡ []

pub record IsCoherent (g : SegmentProjection) : Type 0 where
  pub content_echo : AtMost g.translated_from_content_revision g.content_revision
  pub language_echo : AtMost g.translated_from_language_revision g.language_revision
  pub content_present : EchoPresent g.translation_status g.translated_from_content_revision
  pub language_present : EchoPresent g.translation_status g.translated_from_language_revision
  pub no_stable : NoPartialText g.status g.stable_text
  pub no_unstable : NoPartialText g.status g.unstable_text

pub status_after_final-EchoPresent :
    (t : SegmentStatus) (o : Option ℕ) → EchoPresent (status_after_final t) o
unfolding status_after_final
status_after_final-EchoPresent SegmentStatus.accepted o = tt
status_after_final-EchoPresent _ o = tt

pub NoPartialText-nil : (t : SegmentStatus) → NoPartialText t []
NoPartialText-nil SegmentStatus.partial = tt
NoPartialText-nil _ = refl

pub Creates-IsCoherent :
    {s : SessionProjection} {g : SegmentProjection} → Creates s g → IsCoherent g
Creates-IsCoherent (Creates.partial e) = record {
  content_echo = tt;
  language_echo = tt;
  content_present = tt;
  language_present = tt;
  no_stable = tt;
  no_unstable = tt;
}
Creates-IsCoherent (Creates.final e) = record {
  content_echo = tt;
  language_echo = tt;
  content_present = status_after_final-EchoPresent e.status none;
  language_present = status_after_final-EchoPresent e.status none;
  no_stable = NoPartialText-nil e.status;
  no_unstable = NoPartialText-nil e.status;
}

pub AtMost-trans : (o : Option ℕ) (m n : ℕ) → AtMost o m → m ≤ n → AtMost o n
AtMost-trans none m n h k = tt
AtMost-trans (some a) m n h k = omega arith

pub reopened-EchoPresent :
    (b : Bool)
    → EchoPresent (if b then TranslationStatus.pending else TranslationStatus.not_applicable) none
reopened-EchoPresent true = tt
reopened-EchoPresent false = tt

pub Revises-IsCoherent : {g g' : SegmentProjection} → Revises g g' → IsCoherent g → IsCoherent g'
Revises-IsCoherent {g} (Revises.partial e newer) c = record {
  content_echo = AtMost-trans g.translated_from_content_revision _ _ c.content_echo (omega arith);
  language_echo = c.language_echo;
  content_present = c.content_present;
  language_present = c.language_present;
  no_stable = tt;
  no_unstable = tt;
}
Revises-IsCoherent (Revises.final e newer) c = record {
  content_echo = tt;
  language_echo = tt;
  content_present = status_after_final-EchoPresent e.status none;
  language_present = status_after_final-EchoPresent e.status none;
  no_stable = NoPartialText-nil e.status;
  no_unstable = NoPartialText-nil e.status;
}
Revises-IsCoherent {g} (Revises.language e newer) c = record {
  content_echo = tt;
  language_echo = tt;
  content_present = reopened-EchoPresent (is_accepted g.status);
  language_present = reopened-EchoPresent (is_accepted g.status);
  no_stable = c.no_stable;
  no_unstable = c.no_unstable;
}
Revises-IsCoherent (Revises.speaker e p newer) c = record {
  content_echo = c.content_echo;
  language_echo = c.language_echo;
  content_present = c.content_present;
  language_present = c.language_present;
  no_stable = c.no_stable;
  no_unstable = c.no_unstable;
}
Revises-IsCoherent (Revises.started e accepted) c = record {
  content_echo = c.content_echo;
  language_echo = c.language_echo;
  content_present = tt;
  language_present = tt;
  no_stable = c.no_stable;
  no_unstable = c.no_unstable;
}
Revises-IsCoherent (Revises.translation e p q newer) c = record {
  content_echo = omega arith;
  language_echo = omega arith;
  content_present = tt;
  language_present = tt;
  no_stable = c.no_stable;
  no_unstable = c.no_unstable;
}
Revises-IsCoherent (Revises.failed e p) c = record {
  content_echo = c.content_echo;
  language_echo = c.language_echo;
  content_present = tt;
  language_present = tt;
  no_stable = c.no_stable;
  no_unstable = c.no_unstable;
}

pub with_speaker-IsCoherent :
    {g : SegmentProjection} (target : Text) (revision : ℕ)
    → IsCoherent g
    → IsCoherent (with_speaker target revision g)
with_speaker-IsCoherent target revision c = record {
  content_echo = c.content_echo;
  language_echo = c.language_echo;
  content_present = c.content_present;
  language_present = c.language_present;
  no_stable = c.no_stable;
  no_unstable = c.no_unstable;
}

pub sealed_copy-IsCoherent : {g : SegmentProjection} → IsCoherent g → IsCoherent (sealed_copy g)
sealed_copy-IsCoherent c = record {
  content_echo = c.content_echo;
  language_echo = c.language_echo;
  content_present = c.content_present;
  language_present = c.language_present;
  no_stable = c.no_stable;
  no_unstable = c.no_unstable;
}
