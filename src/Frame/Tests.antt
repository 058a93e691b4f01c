-- ===== src/Frame/Tests.antt =====
-- The properties of protocol/frame.py at one frame of two samples.
use realtime_meeting_transla.Prelude.{ℕ, ◌≤◌, ◌≡◌, refl, arith, List, [], ◌∷◌, ◌++◌, length}
use realtime_meeting_transla.Prelude.Int.{pos, ◌*ℤ◌}
use realtime_meeting_transla.Limits.{header_size_bytes}
use realtime_meeting_transla.Errors.{ok}
use realtime_meeting_transla.Packing.{
  HeaderTuple, pack, unpack_from, le_bytes, from_le, i64_bits, IsBytes,
}
use realtime_meeting_transla.Frame.{
  FrameHeader, header_tuple, encode_frame, decode_frame, payload_bytes,
}
use realtime_meeting_transla.Frame.Fields.{IsEncodable, encode_header-ok}
use realtime_meeting_transla.Frame.RoundTrip.{
  decode_header-encode_header, decode_frame-encode_frame, encode_frame_total,
}
use realtime_meeting_transla.Frame.Canonical.{decode_header-IsEncodable, encode_frame-decode_frame}

abbrev header : FrameHeader
header = record {
  protocol_major = pos 1;
  stream_ordinal = pos 258;
  sequence = pos 7;
  start_sample = pos 16000;
  capture_monotonic_ns = pos 1000000000;
  sample_count = pos 2;
  flags = pos 1;
}

abbrev payload : List ℕ
payload = 1 ∷ 2 ∷ 3 ∷ 4 ∷ []

abbrev frame : List ℕ
frame = pack (header_tuple header) ++ payload

-- The 28 bytes, as the layout of ADR-0010 has them.
pack-header :
    pack (header_tuple header)
    ≡ 1 ∷ 28 ∷ 2 ∷ 1 ∷ 7 ∷ 0 ∷ 0 ∷ 0 ∷ 128 ∷ 62 ∷ 0 ∷ 0 ∷ 0 ∷ 0 ∷ 0 ∷ 0 ∷ 0 ∷ 202 ∷ 154 ∷ 59 ∷ 0 ∷ 0
      ∷ 0 ∷ 0 ∷ 2 ∷ 0 ∷ 1 ∷ 0 ∷ []
unfolding pack le_bytes i64_bits
pack-header = refl

header-IsEncodable : IsEncodable header
header-IsEncodable = ground arith

payload-length : pos (length payload) ≡ payload_bytes header
unfolding payload_bytes ◌*ℤ◌
payload-length = refl

encoded : encode_frame header payload ≡ ok frame
encoded = encode_frame_total header payload header-IsEncodable payload-length

frame-IsBytes : IsBytes frame
unfolding pack le_bytes i64_bits
frame-IsBytes = ground arith

frame-size : (unpack_from frame).header_size_bytes ≡ header_size_bytes
unfolding unpack_from pack le_bytes i64_bits from_le
frame-size = refl

encode_frame_total_example : encode_frame header payload ≡ ok frame
encode_frame_total_example = encode_frame_total header payload header-IsEncodable payload-length

decode_frame-encode_frame_example : decode_frame frame ≡ ok (header, payload)
decode_frame-encode_frame_example = decode_frame-encode_frame header payload frame encoded refl

decode_header-IsEncodable_example :
    IsEncodable header × (header.protocol_major ≡ pos 1) × (28 ≤ 28) × (28 ≤ length frame)
decode_header-IsEncodable_example = decode_header-IsEncodable frame header 28 frame-IsBytes (
    decode_header-encode_header header (pack (header_tuple header)) payload
      (encode_header-ok header header-IsEncodable) refl)

encode_frame-decode_frame_example : encode_frame header payload ≡ ok frame
encode_frame-decode_frame_example =
    encode_frame-decode_frame frame payload header frame-IsBytes
      (decode_frame-encode_frame header payload frame encoded refl) frame-size

-- A header of 30 bytes.
abbrev longer_tuple : HeaderTuple
longer_tuple = record (header_tuple header) { header_size_bytes = 30 }
