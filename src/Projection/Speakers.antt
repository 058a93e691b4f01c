-- ===== src/Projection/Speakers.antt =====
-- protocol/projection.py: speaker aliases and the merge of speakers.
use realtime_meeting_transla.Prelude.{
  ℕ, zero, suc, ◌+◌, true, false, not, ◌&&◌, Bool, Option, none, some, List, [], ◌∷◌, Text, length,
  if◌then◌else◌,
}
use realtime_meeting_transla.Prelude.Dict.{Dict, lookup, insert, member, add}
use realtime_meeting_transla.Events.Transcripts.{SpeakerUpdated}
use realtime_meeting_transla.Projection.State.{
  SegmentProjection, SessionProjection, Outcome, Detail,
}

-- The `while` loop: `current` and the ids seen so far. Each round sees one more alias.
unfoldable pub follow : ℕ → Dict Text → Text → List Text → Text
follow zero aliases current seen = current
follow (suc fuel) aliases current seen = elim (lookup current aliases) [
  | none ↦ current
  | some next ↦ elim (member current seen) [
    | true ↦ current
    | false ↦ follow fuel aliases next (add current seen)
  ]
]

unfoldable pub canonical_speaker : Dict Text → Option Text → Option Text
canonical_speaker aliases none = none
canonical_speaker aliases (some speaker_id) =
    some (follow (suc (length aliases)) aliases speaker_id [])

-- `for alias in from_speaker_ids: speaker_aliases[alias] = target`
unfoldable pub alias_all : List Text → Text → Dict Text → Dict Text
alias_all [] target aliases = aliases
alias_all (a ∷ sources) target aliases = alias_all sources target (insert a target aliases)

-- `primary_speaker_id in from_speaker_ids`
unfoldable pub is_source : List Text → Option Text → Bool
is_source sources none = false
is_source sources (some speaker) = member speaker sources

-- The test of the loop body: an unsealed segment whose speaker is a source.
unfoldable pub is_rewritten : List Text → SegmentProjection → Bool
is_rewritten sources g = not g.sealed && is_source sources g.primary_speaker_id

abbrev pub with_speaker : Text → ℕ → SegmentProjection → SegmentProjection
with_speaker target revision g = record g {
  primary_speaker_id = some target;
  speaker_revision = revision;
}

unfoldable pub rewrite : List Text → Text → ℕ → SegmentProjection → SegmentProjection
rewrite sources target revision g =
    if is_rewritten sources g then with_speaker target revision g else g

-- The loop over `list(self.segments.items())`: each write is to the key that is visited.
unfoldable pub rewrite_all : List Text → Text → ℕ → Dict SegmentProjection → Dict SegmentProjection
rewrite_all sources target revision [] = []
rewrite_all sources target revision ((k, g) ∷ d) =
    (k, rewrite sources target revision g) ∷ rewrite_all sources target revision d

-- `rewritten`, the number of segments that the loop rewrote
unfoldable pub count_rewritten : List Text → Dict SegmentProjection → ℕ
count_rewritten sources [] = 0
count_rewritten sources ((k, g) ∷ d) =
    (if is_rewritten sources g then 1 else 0) + count_rewritten sources d

-- `_apply_speaker_merge`, from its `assert` on.
unfoldable pub merge_into :
    SessionProjection → SpeakerUpdated → Option Text → SessionProjection × Outcome
merge_into s e none = (s, Outcome.assertion_error)
merge_into s e (some target) = (
  record s {
    speaker_aliases = alias_all e.from_speaker_ids target s.speaker_aliases;
    segments = rewrite_all e.from_speaker_ids target e.speaker_revision s.segments;
  },
  Outcome.returned (record {
    applied = true;
    segment = none;
    reason = none;
    detail =
        Detail.merged (length e.from_speaker_ids) target
          (count_rewritten e.from_speaker_ids s.segments);
    conflict = none;
  }),
)

unfoldable pub apply_speaker_merge :
    SessionProjection → SpeakerUpdated → SessionProjection × Outcome
unfolding merge_into
apply_speaker_merge s e = merge_into s e e.to_speaker_id
