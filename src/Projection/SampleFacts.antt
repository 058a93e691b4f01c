-- ===== src/Projection/SampleFacts.antt =====
-- What holds of the sample sessions (Projection/Samples).
use realtime_meeting_transla.Prelude.{◌≡◌, refl, arith, some, codes, text_eq}
use realtime_meeting_transla.Prelude.Dict.{lookup}
use realtime_meeting_transla.Projection.Samples.{
  translated, closed, refused_segment, session, reordered,
}
use realtime_meeting_transla.Projection.Invariant.{IsValid}
use realtime_meeting_transla.Projection.Coherence.{IsCoherent}

pub translated-IsCoherent : IsCoherent translated
translated-IsCoherent = ground arith

pub closed-IsCoherent : IsCoherent closed
closed-IsCoherent = ground arith

pub refused_segment-IsCoherent : IsCoherent refused_segment
refused_segment-IsCoherent = ground arith

pub session-IsValid : IsValid session
unfolding lookup text_eq
session-IsValid = record {
  entries = (
    (refl, translated-IsCoherent),
    ((refl, closed-IsCoherent), ((refl, refused_segment-IsCoherent), tt)),
  );
  distinct = (refl, (refl, (refl, tt)));
}

pub reordered-IsValid : IsValid reordered
unfolding lookup text_eq
reordered-IsValid = record {
  entries = (
    (refl, refused_segment-IsCoherent),
    ((refl, closed-IsCoherent), ((refl, translated-IsCoherent), tt)),
  );
  distinct = (refl, (refl, (refl, tt)));
}

pub at_translated : lookup (codes "seg-1") session.segments ≡ some translated
unfolding lookup text_eq
at_translated = refl

pub at_closed : lookup (codes "seg-2") session.segments ≡ some closed
unfolding lookup text_eq
at_closed = refl

pub at_refused : lookup (codes "seg-3") session.segments ≡ some refused_segment
unfolding lookup text_eq
at_refused = refl
