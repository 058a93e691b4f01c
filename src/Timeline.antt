-- ===== src/Timeline.antt =====
-- protocol/timeline.py: sample offsets, spans and gaps. Python's ints are unbounded and signed.
mod Tests
pub mod Conversion
pub mod Spans
use realtime_meeting_transla.Prelude.{
  ◌-◌, ◌^◌, Bool, true, ◌&&◌, not, Option, none, some, if◌then◌else◌, ◌==◌, ltb,
}
use realtime_meeting_transla.Prelude.Int.{
  ℤ, pos, negsuc, pos_part, neg_part, ◌+ℤ◌, ◌-ℤ◌, ◌*ℤ◌, ltb_ℤ, leb_ℤ, eqb_ℤ, floor_div,
}
use realtime_meeting_transla.Limits.{canonical_sample_rate_hz}
use realtime_meeting_transla.Errors.{ErrorCode, Result, ok, err, ◌>>=◌, ◌>>◌, require}

abbrev pub session_start_sample : ℤ
session_start_sample = pos 0

abbrev pub min_sample_offset : ℤ
min_sample_offset = negsuc (2 ^ 63 - 1)

abbrev pub max_sample_offset : ℤ
max_sample_offset = pos (2 ^ 63 - 1)

unfoldable pub samples_to_ms : ℤ → ℤ
samples_to_ms sample_offset = floor_div (sample_offset *ℤ pos 1000) canonical_sample_rate_hz

unfoldable pub ms_to_samples : ℤ → ℤ
ms_to_samples milliseconds = floor_div (milliseconds *ℤ pos canonical_sample_rate_hz) 1000

unfoldable pub validate_sample_offset : ℤ → Result (Unit {0})
validate_sample_offset x = do
  require (leb_ℤ min_sample_offset x && leb_ℤ x max_sample_offset) ErrorCode.prot_malformed_header
  require (not (ltb_ℤ x session_start_sample)) ErrorCode.prot_malformed_header

pub record SampleSpan : Type 0 where
  pub start_sample : ℤ
  pub end_sample : ℤ

-- `SampleSpan(start, end)`; `none` is the `ValueError` of `__post_init__`.
unfoldable pub make_span : ℤ → ℤ → Option SampleSpan
make_span start end =
    if ltb_ℤ end start then none else some (record { start_sample = start; end_sample = end })

unfoldable pub sample_count : SampleSpan → ℤ
sample_count span = span.end_sample -ℤ span.start_sample

unfoldable pub duration_ms : SampleSpan → ℤ
duration_ms span = samples_to_ms (sample_count span)

unfoldable pub intersects : SampleSpan → SampleSpan → Bool
intersects a b = ltb_ℤ a.start_sample b.end_sample && ltb_ℤ b.start_sample a.end_sample

unfoldable pub contains_sample : SampleSpan → ℤ → Bool
contains_sample span x = leb_ℤ span.start_sample x && ltb_ℤ x span.end_sample

pub record GapMeasurement : Type 0 where
  pub gap_samples : ℤ
  pub span : Option SampleSpan

unfoldable pub is_contiguous : GapMeasurement → Bool
is_contiguous gap = eqb_ℤ gap.gap_samples (pos 0)

unfoldable pub gap_ms : GapMeasurement → ℤ
gap_ms gap = samples_to_ms gap.gap_samples

-- The span of a real gap is built by `make_span`, whose `ValueError` cannot arise there.
unfoldable pub measure_gap : ℤ → ℤ → ℤ → Result GapMeasurement
unfolding make_span
measure_gap previous_start previous_count next_start =
    let previous_end = previous_start +ℤ previous_count in
    let gap = next_start -ℤ previous_end in
    if ltb_ℤ gap (pos 0)
    then err ErrorCode.prot_sample_overlap
    else if eqb_ℤ gap (pos 0)
    then ok (record { gap_samples = pos 0; span = none })
    else ok (record { gap_samples = gap; span = make_span previous_end next_start })
