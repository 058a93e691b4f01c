-- ===== src/Timeline/Tests.antt =====
-- The properties of protocol/timeline.py at concrete offsets.

use realtime_meeting_transla.Prelude.Int.{pos}
use realtime_meeting_transla.Timeline.{measure_gap}
use realtime_meeting_transla.Timeline.Spans.{Gap, measure_gap-Gap}

measure_gap-Gap_example : Gap (pos 0) (pos 320) (pos 480) (measure_gap (pos 0) (pos 320) (pos 480))
measure_gap-Gap_example = measure_gap-Gap (pos 0) (pos 320) (pos 480)
