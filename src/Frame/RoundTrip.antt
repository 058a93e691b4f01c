-- ===== src/Frame/RoundTrip.antt =====
-- Encoding and decoding a frame (protocol/frame.py).
use realtime_meeting_transla.Prelude.{
  ℕ, ◌+◌, ◌≡◌, ap, ◌∙◌, List, ◌++◌, length, drop, arith, length-append, drop-length_append,
}
use realtime_meeting_transla.Prelude.Int.{pos, pos_part, ◌*ℤ◌}
use realtime_meeting_transla.Limits.{header_size_bytes}
use realtime_meeting_transla.Errors.{ok}
use realtime_meeting_transla.Packing.{HeaderTuple, pack}
use realtime_meeting_transla.Packing.Layout.{length-pack, unpack_from-pack}
use realtime_meeting_transla.Frame.{
  FrameHeader, header_tuple, encode_header, decode_header, encode_frame, decode_frame,
  payload_bytes,
}
use realtime_meeting_transla.Frame.Fields.{
  IsEncodable, encode_header-ok, encode_header-inv, decode_header-ok, encode_frame-ok,
  encode_frame-inv, decode_frame-ok, header_tuple-Fits, header_of-header_tuple,
}

pub drop-pack : (t : HeaderTuple) (rest : List ℕ) → drop 28 (pack t ++ rest) ≡ rest
drop-pack t rest =
    rw (← ap (λ k. drop k (pack t ++ rest)) (length-pack t)) (drop-length_append (pack t) rest)

pub decode_pack :
    (h : FrameHeader) (rest : List ℕ)
    → IsEncodable h
    → h.protocol_major ≡ pos 1
    → decode_header (pack (header_tuple h) ++ rest) ≡ ok (h, header_size_bytes)
decode_pack h rest e major =
    let t = header_tuple h in
    let long : length (pack t ++ rest) ≡ 28 + length rest =
      length-append (pack t) rest ∙ ap (λ k. k + length rest) (length-pack t) in
    decode_header-ok (pack t ++ rest) t (unpack_from-pack t rest (header_tuple-Fits h e))
      (ap pos_part major) (ground arith) (ground (arith, long)) (ground arith) e.start
    ∙ ap (λ x. ok (x, header_size_bytes)) (header_of-header_tuple h e)

-- A header of this major that `encode_header` accepts is decoded to itself, whatever follows it,
-- with its payload at byte 28.
pub decode_header-encode_header :
    (h : FrameHeader) (bs rest : List ℕ)
    → encode_header h ≡ ok bs
    → h.protocol_major ≡ pos 1
    → decode_header (bs ++ rest) ≡ ok (h, header_size_bytes)
decode_header-encode_header h bs rest encoded major =
    let (e, packed) = encode_header-inv h bs encoded in rw (← packed) (decode_pack h rest e major)

-- A frame of this major that `encode_frame` returns is decoded to its header and its payload.
pub decode_frame-encode_frame :
    (h : FrameHeader) (payload frame : List ℕ)
    → encode_frame h payload ≡ ok frame
    → h.protocol_major ≡ pos 1
    → decode_frame frame ≡ ok (h, payload)
decode_frame-encode_frame h payload frame encoded major =
    let (l, _, split, fits, e) = encode_frame-inv h payload frame encoded in
    let same : drop 28 frame ≡ payload = ap (drop 28) split ∙ drop-pack (header_tuple h) payload in
    decode_frame-ok frame h 28 fits (rw split (decode_pack h payload e major))
      (ap (λ p. pos (length p)) same ∙ l)
    ∙ ap (λ p. ok (h, p)) same

-- Every encodable header with a payload of the length that it declares is encoded: the limit on
-- the whole frame is never what refuses it.
pub encode_frame_total :
    (h : FrameHeader) (payload : List ℕ)
    → IsEncodable h
    → pos (length payload) ≡ payload_bytes h
    → encode_frame h payload ≡ ok (pack (header_tuple h) ++ payload)
unfolding payload_bytes ◌*ℤ◌
encode_frame_total h payload e l =
    let long : length (pack (header_tuple h) ++ payload) ≡ 28 + length payload =
      length-append (pack (header_tuple h)) payload
      ∙ ap (λ k. k + length payload) (length-pack (header_tuple h)) in
    encode_frame-ok h payload (pack (header_tuple h)) l (encode_header-ok h e)
      (ground (arith, long))
