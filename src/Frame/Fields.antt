-- ===== src/Frame/Fields.antt =====
-- Which headers the codec accepts (protocol/frame.py).
use realtime_meeting_transla.Prelude.{
  ℕ, ◌-◌, ◌^◌, ◌≤◌, ◌≡◌, ◌↔◌, ◌⊎◌, List, ◌++◌, length, drop, arith, inl, inr,
}
use realtime_meeting_transla.Prelude.Int.{ℤ, pos, pos_part, ◌≤ℤ◌}
use realtime_meeting_transla.Limits.{max_frame_bytes, max_samples_per_frame, header_size_bytes}
use realtime_meeting_transla.Errors.{ErrorCode, ok, err, Result-cases}
use realtime_meeting_transla.Packing.{HeaderTuple, pack, unpack_from}
use realtime_meeting_transla.Packing.Layout.{Fits}
use realtime_meeting_transla.Timeline.{validate_sample_offset}
use realtime_meeting_transla.Frame.{
  FrameHeader, check_unsigned, header_tuple, header_of, encode_header, decode_header, encode_frame,
  decode_frame, u8_max, u16_max, u32_max, u64_max, payload_bytes,
}

abbrev pub InRange : ℤ → ℕ → Type 0
InRange v maximum = (pos 0 ≤ℤ v) × (v ≤ℤ pos maximum)

-- What ADR-0010 asks of a header: every field fits its width, the start is a session sample, and
-- the frame is not longer than the limit.
pub record IsEncodable (h : FrameHeader) : Type 0 where
  pub major : InRange h.protocol_major u8_max
  pub ordinal : InRange h.stream_ordinal u16_max
  pub sequence : InRange h.sequence u32_max
  pub capture : InRange h.capture_monotonic_ns u64_max
  pub count : InRange h.sample_count max_samples_per_frame
  pub flags : InRange h.flags u16_max
  pub start : InRange h.start_sample (2 ^ 63 - 1)

check_unsigned-ok : (v : ℤ) (m : ℕ) → (check_unsigned v m ≡ ok tt) ↔ InRange v m
unfolding check_unsigned
check_unsigned-ok v m = ground arith

pub encode_header-ok :
    (h : FrameHeader) → IsEncodable h → encode_header h ≡ ok (pack (header_tuple h))
unfolding encode_header check_unsigned validate_sample_offset
encode_header-ok h e = ground arith

pub encode_header-inv :
    (h : FrameHeader) (bs : List ℕ)
    → encode_header h ≡ ok bs
    → IsEncodable h × (pack (header_tuple h) ≡ bs)
unfolding encode_header check_unsigned validate_sample_offset
encode_header-inv h bs e = ground arith

-- A header that does not fit is refused with one of two codes.
pub encode_header-err :
    (h : FrameHeader) (c : ErrorCode)
    → encode_header h ≡ err c
    → (c ≡ ErrorCode.prot_malformed_header) ⊎ (c ≡ ErrorCode.prot_frame_too_large)
unfolding encode_header check_unsigned validate_sample_offset
encode_header-err h c e = ground arith

pub decode_header-inv :
    (view : List ℕ) (h : FrameHeader) (n : ℕ)
    → decode_header view ≡ ok (h, n)
    → (header_size_bytes ≤ length view)
      × ((unpack_from view).protocol_major ≡ 1)
      × (header_size_bytes ≤ n)
      × (n ≤ length view)
      × ((unpack_from view).sample_count ≤ max_samples_per_frame)
      × InRange (unpack_from view).start_sample (2 ^ 63 - 1)
      × (h ≡ header_of (unpack_from view))
      × (n ≡ (unpack_from view).header_size_bytes)
unfolding decode_header validate_sample_offset
decode_header-inv view h n e = ground arith

pub decode_header-ok :
    (view : List ℕ) (t : HeaderTuple)
    → unpack_from view ≡ t
    → t.protocol_major ≡ 1
    → header_size_bytes ≤ t.header_size_bytes
    → t.header_size_bytes ≤ length view
    → t.sample_count ≤ max_samples_per_frame
    → InRange t.start_sample (2 ^ 63 - 1)
    → decode_header view ≡ ok (header_of t, t.header_size_bytes)
unfolding decode_header validate_sample_offset
decode_header-ok view t u major low high count start = rw u (ground arith)

pub header_tuple-Fits : (h : FrameHeader) → IsEncodable h → Fits (header_tuple h)
header_tuple-Fits h e = record {
  major = ground arith;
  size = ground arith;
  ordinal = ground arith;
  sequence = ground arith;
  start_low = ground arith;
  start_high = ground arith;
  capture = ground arith;
  count = ground arith;
  flags = ground arith;
}

pos-pos_part : (v : ℤ) → pos 0 ≤ℤ v → pos (pos_part v) ≡ v
pos-pos_part v h = ground arith

pub header_of-header_tuple : (h : FrameHeader) → IsEncodable h → header_of (header_tuple h) ≡ h
header_of-header_tuple h e = simp (
  pos-pos_part _ e.major.0,
  pos-pos_part _ e.ordinal.0,
  pos-pos_part _ e.sequence.0,
  pos-pos_part _ e.capture.0,
  pos-pos_part _ e.count.0,
  pos-pos_part _ e.flags.0,
)

pub encode_frame-ok :
    (h : FrameHeader) (payload header : List ℕ)
    → pos (length payload) ≡ payload_bytes h
    → encode_header h ≡ ok header
    → length (header ++ payload) ≤ max_frame_bytes
    → encode_frame h payload ≡ ok (header ++ payload)
unfolding encode_frame
encode_frame-ok h payload header l e fits = rw e (ground arith)

pub encode_frame-inv :
    (h : FrameHeader) (payload frame : List ℕ)
    → encode_frame h payload ≡ ok frame
    → (pos (length payload) ≡ payload_bytes h)
      × (encode_header h ≡ ok (pack (header_tuple h)))
      × (frame ≡ pack (header_tuple h) ++ payload)
      × (length frame ≤ max_frame_bytes)
      × IsEncodable h
unfolding encode_frame
encode_frame-inv h payload frame e = elim (Result-cases (encode_header h)) [
  | inl (bs, encoded) ↦ grind (arith, encode_header-inv h bs encoded)
  | inr (c, raised) ↦ grind arith
]

pub decode_frame-ok :
    (view : List ℕ) (h : FrameHeader) (n : ℕ)
    → length view ≤ max_frame_bytes
    → decode_header view ≡ ok (h, n)
    → pos (length (drop n view)) ≡ payload_bytes h
    → decode_frame view ≡ ok (h, drop n view)
unfolding decode_frame
decode_frame-ok view h n fits e l = rw e (ground arith)

pub decode_frame-inv :
    (view payload : List ℕ) (h : FrameHeader)
    → decode_frame view ≡ ok (h, payload)
    → (length view ≤ max_frame_bytes)
      × ((n : ℕ) × (decode_header view ≡ ok (h, n))
          × (payload ≡ drop n view)
          × (pos (length payload) ≡ payload_bytes h))
unfolding decode_frame
decode_frame-inv view payload h e = elim (Result-cases (decode_header view)) [
  | inl ((h', n), decoded) ↦ grind arith
  | inr (c, raised) ↦ grind arith
]
