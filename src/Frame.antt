-- ===== src/Frame.antt =====
-- protocol/frame.py: the binary audio frame and its 28 byte header.
mod Tests
pub mod Fields
pub mod RoundTrip
pub mod Canonical
use realtime_meeting_transla.Prelude.{
  ℕ, ◌+◌, ◌-◌, ◌*◌, ◌%◌, ◌^◌, ◌==◌, Bool, true, not, ◌&&◌, Option, List, ◌++◌, length, drop, leb,
}
use realtime_meeting_transla.Prelude.Int.{ℤ, pos, negsuc, pos_part, ◌+ℤ◌, ◌*ℤ◌, leb_ℤ, eqb_ℤ}
use realtime_meeting_transla.Limits.{
  bytes_per_sample, max_frame_bytes, max_samples_per_frame, header_size_bytes,
}
use realtime_meeting_transla.Errors.{ErrorCode, Result, ok, err, ◌>>=◌, ◌>>◌, require}
use realtime_meeting_transla.Version.{protocol_major}
use realtime_meeting_transla.Packing.{HeaderTuple, pack, unpack_from}
use realtime_meeting_transla.Timeline.{SampleSpan, make_span, validate_sample_offset}

abbrev pub u8_max : ℕ
u8_max = 2 ^ 8 - 1

abbrev pub u16_max : ℕ
u16_max = 2 ^ 16 - 1

abbrev pub u32_max : ℕ
u32_max = 2 ^ 32 - 1

abbrev pub u64_max : ℕ
u64_max = 2 ^ 64 - 1

-- The fields are Python ints: nothing bounds them until a header is encoded.
pub record FrameHeader : Type 0 where
  pub protocol_major : ℤ
  pub stream_ordinal : ℤ
  pub sequence : ℤ
  pub start_sample : ℤ
  pub capture_monotonic_ns : ℤ
  pub sample_count : ℤ
  pub flags : ℤ

unfoldable pub end_sample : FrameHeader → ℤ
end_sample header = header.start_sample +ℤ header.sample_count

-- `none` is the `ValueError` of a span that ends before it starts.
unfoldable pub span : FrameHeader → Option SampleSpan
span header = make_span header.start_sample (end_sample header)

unfoldable pub payload_bytes : FrameHeader → ℤ
payload_bytes header = header.sample_count *ℤ pos bytes_per_sample

-- `bool(self.flags & FrameFlags.SYNTHETIC_AUDIO)`: the low bit, in two's complement.
unfoldable pub is_synthetic : FrameHeader → Bool
is_synthetic header = elim header.flags [ pos n ↦ n % 2 == 1 | negsuc n ↦ n % 2 == 0 ]

unfoldable pub check_unsigned : ℤ → ℕ → Result (Unit {0})
check_unsigned value maximum =
    require (leb_ℤ (pos 0) value && leb_ℤ value (pos maximum)) ErrorCode.prot_malformed_header

-- The arguments of `_HEADER_STRUCT.pack` in `encode_header`, which are not negative there.
abbrev pub header_tuple : FrameHeader → HeaderTuple
header_tuple header = record {
  protocol_major = pos_part header.protocol_major;
  header_size_bytes = header_size_bytes;
  stream_ordinal = pos_part header.stream_ordinal;
  sequence = pos_part header.sequence;
  start_sample = header.start_sample;
  capture_monotonic_ns = pos_part header.capture_monotonic_ns;
  sample_count = pos_part header.sample_count;
  flags = pos_part header.flags;
}

unfoldable pub encode_header : FrameHeader → Result (List ℕ)
encode_header header = do
  check_unsigned header.protocol_major u8_max
  check_unsigned header.stream_ordinal u16_max
  check_unsigned header.sequence u32_max
  check_unsigned header.capture_monotonic_ns u64_max
  check_unsigned header.sample_count u16_max
  check_unsigned header.flags u16_max
  validate_sample_offset header.start_sample
  require (leb_ℤ header.sample_count (pos max_samples_per_frame)) ErrorCode.prot_frame_too_large
  ok (pack (header_tuple header))

-- `FrameHeader(...)` in `decode_header`.
abbrev pub header_of : HeaderTuple → FrameHeader
header_of t = record {
  protocol_major = pos t.protocol_major;
  stream_ordinal = pos t.stream_ordinal;
  sequence = pos t.sequence;
  start_sample = t.start_sample;
  capture_monotonic_ns = pos t.capture_monotonic_ns;
  sample_count = pos t.sample_count;
  flags = pos t.flags;
}

unfoldable pub decode_header : List ℕ → Result (FrameHeader × ℕ)
decode_header view = do
  require (leb header_size_bytes (length view)) ErrorCode.prot_malformed_header
  let t = unpack_from view
  require (t.protocol_major == protocol_major) ErrorCode.prot_unsupported_major_version
  require (leb header_size_bytes t.header_size_bytes) ErrorCode.prot_malformed_header
  require (leb t.header_size_bytes (length view)) ErrorCode.prot_malformed_header
  require (leb t.sample_count max_samples_per_frame) ErrorCode.prot_frame_too_large
  validate_sample_offset t.start_sample
  ok (header_of t, t.header_size_bytes)

unfoldable pub encode_frame : FrameHeader → List ℕ → Result (List ℕ)
encode_frame header payload = do
  require (eqb_ℤ (pos (length payload)) (payload_bytes header)) ErrorCode.prot_malformed_header
  encoded_header ← encode_header header
  let encoded = encoded_header ++ payload
  require (leb (length encoded) max_frame_bytes) ErrorCode.prot_frame_too_large
  ok encoded

unfoldable pub decode_frame : List ℕ → Result (FrameHeader × List ℕ)
decode_frame view = do
  require (leb (length view) max_frame_bytes) ErrorCode.prot_frame_too_large
  (header, payload_offset) ← decode_header view
  let payload = drop payload_offset view
  require (eqb_ℤ (pos (length payload)) (payload_bytes header)) ErrorCode.prot_malformed_header
  ok (header, payload)
