-- ===== src/Projection/Reducer.antt =====
-- protocol/projection.py: `_dispatch`, `apply`, `fold` and `seal`. A call gives the session back
-- beside its outcome.
use realtime_meeting_transla.Prelude.{
  Bool, true, false, Option, none, some, List, [], ◌∷◌, ◌++◌, Text, if◌then◌else◌,
}
use realtime_meeting_transla.Prelude.Dict.{Dict, lookup, insert, member, add}
use realtime_meeting_transla.Enums.{RejectionReason}
use realtime_meeting_transla.Events.{Event, event_id, event_type}
use realtime_meeting_transla.Projection.State.{
  SegmentProjection, IntegrityConflict, ProjectionResult, SessionProjection, Outcome, Detail,
  accept, refuse,
}
use realtime_meeting_transla.Projection.Handlers.{apply_partial, apply_final}
use realtime_meeting_transla.Projection.Updates.{
  apply_language, apply_speaker, apply_translation_started, apply_translation_final,
  apply_translation_failed,
}

-- `SessionProjection(session_id)`
abbrev pub new_session : Text → SessionProjection
new_session id = record {
  session_id = id;
  segments = [];
  seen_event_ids = [];
  speaker_aliases = [];
  conflicts = [];
}

unfoldable pub dispatch : SessionProjection → Event → SessionProjection × Outcome
dispatch s (Event.transcript_partial e) = (s, Outcome.returned (apply_partial s e))
dispatch s (Event.transcript_revised e) =
    (s, Outcome.returned (apply_final s (event_type (Event.transcript_revised e)) e))
dispatch s (Event.transcript_final e) =
    (s, Outcome.returned (apply_final s (event_type (Event.transcript_final e)) e))
dispatch s (Event.language_updated e) = (s, Outcome.returned (apply_language s e))
dispatch s (Event.speaker_updated e) = apply_speaker s e
dispatch s (Event.translation_started e) = (s, Outcome.returned (apply_translation_started s e))
dispatch s (Event.translation_final e) = (s, Outcome.returned (apply_translation_final s e))
dispatch s (Event.translation_failed e) = (s, Outcome.returned (apply_translation_failed s e))
dispatch s e = (
  s,
  Outcome.returned (refuse RejectionReason.not_applicable (Detail.no_segment_state (event_type e))),
)

-- `if result.conflict is not None: self.conflicts.append(result.conflict)`
unfoldable pub noted : Option IntegrityConflict → List IntegrityConflict → List IntegrityConflict
noted none conflicts = conflicts
noted (some c) conflicts = conflicts ++ c ∷ []

-- `if result.applied and result.segment is not None: self.segments[…] = result.segment`
unfoldable pub stored :
    Bool → Option SegmentProjection → Dict SegmentProjection → Dict SegmentProjection
stored false segment segments = segments
stored true none segments = segments
stored true (some g) segments = insert g.segment_id g segments

-- `apply` behind the call of `_dispatch`: an `AssertionError` leaves the method at once.
unfoldable pub settle : Text → SessionProjection × Outcome → SessionProjection × Outcome
settle id (s, Outcome.assertion_error) = (s, Outcome.assertion_error)
settle id (s, Outcome.returned r) = (
  record s {
    seen_event_ids = add id s.seen_event_ids;
    conflicts = noted r.conflict s.conflicts;
    segments = stored r.applied r.segment s.segments;
  },
  Outcome.returned r,
)

unfoldable pub apply : SessionProjection → Event → SessionProjection × Outcome
apply s e = elim (member (event_id e) s.seen_event_ids) [
  | true ↦
      (s, Outcome.returned (refuse RejectionReason.duplicate (Detail.already_applied (event_id e))))
  | false ↦ settle (event_id e) (dispatch s e)
]

-- `fold`: the session after the events, and what `apply` returned for each. The comprehension ends
-- at the first exception.
unfoldable pub fold : List Event → SessionProjection → SessionProjection × List Outcome
fold [] s = (s, [])
fold (e ∷ es) s =
    let later = fold es (apply s e).0 in
    elim (apply s e).1 [
      | Outcome.assertion_error ↦ ((apply s e).0, Outcome.assertion_error ∷ [])
      | Outcome.returned r ↦ (later.0, Outcome.returned r ∷ later.1)
    ]

unfoldable pub seal : SessionProjection → Text → SessionProjection × ProjectionResult
seal s segment_id = elim (lookup segment_id s.segments) [
  | none ↦ (s, refuse RejectionReason.not_applicable (Detail.unknown_segment segment_id))
  | some g ↦
      let sealed = record g { sealed = true } in
      if g.sealed
      then (s, refuse RejectionReason.duplicate (Detail.already_sealed segment_id))
      else (record s { segments = insert segment_id sealed s.segments }, accept sealed)
]
