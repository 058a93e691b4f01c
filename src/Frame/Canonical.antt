-- ===== src/Frame/Canonical.antt =====
-- What the frame decoder accepts (protocol/frame.py).
use realtime_meeting_transla.Prelude.{
  ℕ, ◌+◌, ◌-◌, ◌*◌, ◌^◌, ◌≤◌, ◌≡◌, ap, sym, ◌∙◌, true, List, ◌++◌, length, drop, arith,
  length-append, append_assoc, drop-length_append,
}
use realtime_meeting_transla.Prelude.Int.{pos, ◌*ℤ◌}
use realtime_meeting_transla.Limits.{max_frame_bytes, max_samples_per_frame, header_size_bytes}
use realtime_meeting_transla.Errors.{ErrorCode, ok, err, is_fatal}
use realtime_meeting_transla.Packing.{HeaderTuple, pack, unpack_from, IsBytes}
use realtime_meeting_transla.Packing.Layout.{
  Fits, length-pack, unpack_from-pack, pack-unpack_from, unpack_from-Fits,
}
use realtime_meeting_transla.Timeline.{validate_sample_offset}
use realtime_meeting_transla.Frame.{
  FrameHeader, header_tuple, header_of, decode_header, encode_frame, decode_frame, payload_bytes,
}
use realtime_meeting_transla.Frame.Fields.{
  InRange, IsEncodable, decode_header-ok, decode_header-inv, decode_frame-ok, decode_frame-inv,
}
use realtime_meeting_transla.Frame.RoundTrip.{encode_frame_total}

header_of-IsEncodable :
    (t : HeaderTuple)
    → Fits t
    → t.sample_count ≤ max_samples_per_frame
    → InRange t.start_sample (2 ^ 63 - 1)
    → IsEncodable (header_of t)
header_of-IsEncodable t f count start = record {
  major = ground arith;
  ordinal = ground arith;
  sequence = ground arith;
  capture = ground arith;
  count = ground arith;
  flags = ground arith;
  start = start;
}

header_tuple-header_of :
    (t : HeaderTuple) → t.header_size_bytes ≡ header_size_bytes → header_tuple (header_of t) ≡ t
header_tuple-header_of t size = rw (← size)

-- A header that is decoded from bytes is of this major and one that `encode_header` accepts, and
-- its payload begins after 28 bytes or more, within the frame.
pub decode_header-IsEncodable :
    (view : List ℕ) (h : FrameHeader) (n : ℕ)
    → IsBytes view
    → decode_header view ≡ ok (h, n)
    → IsEncodable h × (h.protocol_major ≡ pos 1) × (header_size_bytes ≤ n) × (n ≤ length view)
decode_header-IsEncodable view h n bytes decoded =
    let (long, major, low, high, count, start, e, size) = decode_header-inv view h n decoded in
    let f = unpack_from-Fits view (bytes, long) in
    rw e (header_of-IsEncodable _ f count start, ap pos major, ground arith, ground arith)

-- A frame of bytes whose header declares 28 bytes has one encoding: what was decoded from it is
-- encoded to the same bytes.
pub encode_frame-decode_frame :
    (view payload : List ℕ) (h : FrameHeader)
    → IsBytes view
    → decode_frame view ≡ ok (h, payload)
    → (unpack_from view).header_size_bytes ≡ header_size_bytes
    → encode_frame h payload ≡ ok view
encode_frame-decode_frame view payload h bytes decoded size =
    let (fits, (n, dec, rest, l)) = decode_frame-inv view payload h decoded in
    let (e, major, low, high) = decode_header-IsEncodable view h n bytes dec in
    let (long, _, _, _, _, _, of, at) = decode_header-inv view h n dec in
    let same : header_tuple h ≡ unpack_from view =
      ap header_tuple of ∙ header_tuple-header_of _ size in
    let tail : payload ≡ drop 28 view = rest ∙ ap (λ k. drop k view) (at ∙ size) in
    encode_frame_total h payload e l ∙ ap ok (rw (same, tail) (pack-unpack_from view (bytes, long)))

-- Every error that `decode_frame` raises is a fatal one.
pub decode_frame-is_fatal :
    (view : List ℕ) (c : ErrorCode) → decode_frame view ≡ err c → is_fatal c ≡ true
unfolding decode_frame decode_header validate_sample_offset is_fatal
decode_frame-is_fatal view c e = ground arith

-- A frame of this major whose header declares more than 28 bytes, as a later minor version may
-- send, is decoded with the added bytes skipped, not read as audio.
pub decode_frame_extended :
    (t : HeaderTuple) (added payload : List ℕ)
    → Fits t
    → t.protocol_major ≡ 1
    → t.header_size_bytes ≡ 28 + length added
    → t.sample_count ≤ max_samples_per_frame
    → InRange t.start_sample (2 ^ 63 - 1)
    → length payload ≡ t.sample_count * 2
    → 28 + length added + length payload ≤ max_frame_bytes
    → decode_frame (pack t ++ (added ++ payload)) ≡ ok (header_of t, payload)
unfolding payload_bytes ◌*ℤ◌
decode_frame_extended t added payload f major size count start l fits =
    let view = pack t ++ (added ++ payload) in
    let long : length view ≡ 28 + length added + length payload = omega (
      arith,
      length-append (pack t) (added ++ payload),
      length-append added payload,
      length-pack t,
    ) in
    let before : length (pack t ++ added) ≡ t.header_size_bytes =
      omega (arith, length-append (pack t) added, length-pack t) in
    let rest : drop t.header_size_bytes view ≡ payload =
      ap (drop t.header_size_bytes) (sym (append_assoc (pack t) added payload))
      ∙ ap (λ k. drop k ((pack t ++ added) ++ payload)) (sym before)
      ∙ drop-length_append (pack t ++ added) payload in
    decode_frame-ok view (header_of t) t.header_size_bytes (omega (arith, long))
      (decode_header-ok view t (unpack_from-pack t (added ++ payload) f) major (omega arith)
        (omega (arith, long)) count start)
      (ap (λ p. pos (length p)) rest ∙ ground (arith, l))
    ∙ ap (λ p. ok (header_of t, p)) rest
