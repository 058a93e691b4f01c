-- ===== src/Limits.antt =====
-- protocol/limits.py: size and count limits; and the sample bounds of protocol/timeline.py.
use realtime_meeting_transla.Prelude.{ℕ, ◌*◌, ◌-◌, ◌^◌}

abbrev pub canonical_sample_rate_hz : ℕ
canonical_sample_rate_hz = 16000

abbrev pub bytes_per_sample : ℕ
bytes_per_sample = 2

abbrev pub max_frame_bytes : ℕ
max_frame_bytes = 16 * 1024

abbrev pub max_samples_per_frame : ℕ
max_samples_per_frame = 8000

abbrev pub max_event_bytes : ℕ
max_event_bytes = 64 * 1024

abbrev pub max_text_chars : ℕ
max_text_chars = 8192

abbrev pub max_identifier_chars : ℕ
max_identifier_chars = 64

abbrev pub max_concurrent_sessions : ℕ
max_concurrent_sessions = 1

-- `HEADER_SIZE_BYTES` of protocol/frame.py
abbrev pub header_size_bytes : ℕ
header_size_bytes = 28

abbrev pub max_payload_bytes : ℕ
max_payload_bytes = max_frame_bytes - header_size_bytes

-- `MAX_JSON_SAFE_SAMPLE` of protocol/timeline.py
abbrev pub max_json_safe_sample : ℕ
max_json_safe_sample = 2 ^ 53 - 1
