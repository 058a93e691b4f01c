-- ===== src/Packing/Layout.antt =====
-- The 28 byte header layout (Packing): what `pack` writes, `unpack_from` reads, and the converse.
use realtime_meeting_transla.Prelude.{
  ℕ, ◌-◌, ◌^◌, ◌<◌, ◌≡◌, List, ◌++◌, length, drop, length-append, append_assoc, drop-drop,
}
use realtime_meeting_transla.Prelude.Int.{pos, negsuc, ◌≤ℤ◌, ◌<ℤ◌}
use realtime_meeting_transla.Packing.{IsBytes, HeaderTuple, pack, unpack_from}
use realtime_meeting_transla.Packing.Bytes.{
  length-le_bytes, take_field, from_le-le_bytes, le_bytes-IsBytes, skip_field, i64_bits-bound,
  from_i64-i64_bits, i64_bits-from_i64, append-IsBytes, from_i64-bounds, Holds, drop-Holds,
  field_bound, rewrite_field,
}

-- Every value fits its field.
pub record Fits (t : HeaderTuple) : Type 0 where
  pub major : t.protocol_major < 2 ^ 8
  pub size : t.header_size_bytes < 2 ^ 8
  pub ordinal : t.stream_ordinal < 2 ^ 16
  pub sequence : t.sequence < 2 ^ 32
  pub start_low : negsuc (2 ^ 63 - 1) ≤ℤ t.start_sample
  pub start_high : t.start_sample <ℤ pos (2 ^ 63)
  pub capture : t.capture_monotonic_ns < 2 ^ 64
  pub count : t.sample_count < 2 ^ 16
  pub flags : t.flags < 2 ^ 16

pub length-pack : (t : HeaderTuple) → length (pack t) ≡ 28
unfolding pack
length-pack t = simp (length-append, length-le_bytes)

pub pack-IsBytes : (t : HeaderTuple) → IsBytes (pack t)
unfolding pack
pack-IsBytes t = search (append-IsBytes, le_bytes-IsBytes) depth 10

pub unpack_from-pack : (t : HeaderTuple) (rest : List ℕ) → Fits t → unpack_from (pack t ++ rest) ≡ t
unfolding pack unpack_from
unpack_from-pack t rest f = simp (
  append_assoc,
  skip_field,
  take_field,
  from_le-le_bytes 1 _ f.major,
  from_le-le_bytes 1 _ f.size,
  from_le-le_bytes 2 _ f.ordinal,
  from_le-le_bytes 4 _ f.sequence,
  from_le-le_bytes 8 _ (i64_bits-bound _ f.start_high f.start_low),
  from_i64-i64_bits _ f.start_high f.start_low,
  from_le-le_bytes 8 _ f.capture,
  from_le-le_bytes 2 _ f.count,
  from_le-le_bytes 2 _ f.flags,
)

-- The 28 bytes that `unpack_from` reads are what `pack` writes of the tuple they hold.
pub pack-unpack_from : (bs : List ℕ) → Holds 28 bs → pack (unpack_from bs) ++ drop 28 bs ≡ bs
unfolding pack unpack_from
pack-unpack_from bs h =
    let h1 = drop-Holds 1 27 bs h in
    let h2 = drop-Holds 1 26 _ h1 in
    let h4 = drop-Holds 2 24 _ h2 in
    let h8 = drop-Holds 4 20 _ h4 in
    let h16 = drop-Holds 8 12 _ h8 in
    let h24 = drop-Holds 8 4 _ h16 in
    let h26 = drop-Holds 2 2 _ h24 in
    let last = rewrite_field 2 0 _ (drop 28 bs) h26 (simp drop-drop) in
    let count = rewrite_field 2 2 _ _ h24 last in
    let capture = rewrite_field 8 4 _ _ h16 count in
    let start = rewrite_field 8 12 _ _ h8 capture in
    let sequence = rewrite_field 4 20 _ _ h4 start in
    let ordinal = rewrite_field 2 24 _ _ h2 sequence in
    let size = rewrite_field 1 26 _ _ h1 ordinal in
    let major = rewrite_field 1 27 bs _ h size in
    simp (append_assoc, i64_bits-from_i64 _ (field_bound 8 12 _ h8), major)

pub unpack_from-Fits : (bs : List ℕ) → Holds 28 bs → Fits (unpack_from bs)
unfolding unpack_from
unpack_from-Fits bs h =
    let h1 = drop-Holds 1 27 bs h in
    let h2 = drop-Holds 1 26 _ h1 in
    let h4 = drop-Holds 2 24 _ h2 in
    let h8 = drop-Holds 4 20 _ h4 in
    let h16 = drop-Holds 8 12 _ h8 in
    let h24 = drop-Holds 8 4 _ h16 in
    let h26 = drop-Holds 2 2 _ h24 in
    let (low, high) = from_i64-bounds _ (field_bound 8 12 _ h8) in
    record {
      major = field_bound 1 27 bs h;
      size = field_bound 1 26 _ h1;
      ordinal = field_bound 2 24 _ h2;
      sequence = field_bound 4 20 _ h4;
      start_low = low;
      start_high = high;
      capture = field_bound 8 4 _ h16;
      count = field_bound 2 2 _ h24;
      flags = field_bound 2 0 _ h26;
    }
