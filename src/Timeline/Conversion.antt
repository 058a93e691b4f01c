-- ===== src/Timeline/Conversion.antt =====
-- Samples and milliseconds (protocol/timeline.py).
use realtime_meeting_transla.Prelude.{◌≡◌, arith}
use realtime_meeting_transla.Prelude.Int.{ℤ, pos, ◌+ℤ◌, ◌*ℤ◌, floor_div, ◌≤ℤ◌, ◌<ℤ◌}
use realtime_meeting_transla.Timeline.{samples_to_ms, ms_to_samples}

-- Converting whole milliseconds to samples and back loses nothing, for negative ones too.
pub samples_to_ms-ms_to_samples : (m : ℤ) → samples_to_ms (ms_to_samples m) ≡ m
unfolding samples_to_ms ms_to_samples ◌*ℤ◌ floor_div
samples_to_ms-ms_to_samples m = ground arith

-- Converting samples to milliseconds and back rounds down, by fewer than the 16 samples of a
-- millisecond.
pub ms_to_samples-samples_to_ms :
    (x : ℤ)
    → (ms_to_samples (samples_to_ms x) ≤ℤ x) × (x <ℤ ms_to_samples (samples_to_ms x) +ℤ pos 16)
unfolding samples_to_ms ms_to_samples ◌*ℤ◌ floor_div ◌+ℤ◌
ms_to_samples-samples_to_ms x = ground arith

-- Later samples are never at earlier milliseconds.
pub samples_to_ms_mono : (x y : ℤ) → x ≤ℤ y → samples_to_ms x ≤ℤ samples_to_ms y
unfolding samples_to_ms ◌*ℤ◌ floor_div
samples_to_ms_mono x y h = ground arith
