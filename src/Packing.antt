-- ===== src/Packing.antt =====
-- The byte layout `struct.Struct("<BBHIqQHH")` of protocol/frame.py: little-endian, no padding.
pub mod Bytes
pub mod Layout
use realtime_meeting_transla.Prelude.{
  ℕ, zero, suc, ◌+◌, ◌-◌, ◌*◌, ◌/◌, ◌%◌, ◌^◌, ◌<◌, List, [], ◌∷◌, ◌++◌, take, drop, All, ltb,
  if◌then◌else◌,
}
use realtime_meeting_transla.Prelude.Int.{ℤ, pos, negsuc}

abbrev pub IsBytes : List ℕ → Type 0
IsBytes = All (λ b. b < 256)

-- An unsigned integer in `w` bytes, the low byte first, and back.
unfoldable pub le_bytes : ℕ → ℕ → List ℕ
le_bytes zero n = []
le_bytes (suc w) n = (n % 256) ∷ le_bytes w (n / 256)

unfoldable pub from_le : List ℕ → ℕ
from_le [] = 0
from_le (b ∷ bs) = b + 256 * from_le bs

-- Two's complement in 64 bits.
unfoldable pub i64_bits : ℤ → ℕ
i64_bits (pos n) = n
i64_bits (negsuc n) = 2 ^ 64 - 1 - n

unfoldable pub from_i64 : ℕ → ℤ
from_i64 b = if ltb b (2 ^ 63) then pos b else negsuc (2 ^ 64 - 1 - b)

-- The tuple that `pack` takes and `unpack_from` returns.
pub record HeaderTuple : Type 0 where
  pub protocol_major : ℕ
  pub header_size_bytes : ℕ
  pub stream_ordinal : ℕ
  pub sequence : ℕ
  pub start_sample : ℤ
  pub capture_monotonic_ns : ℕ
  pub sample_count : ℕ
  pub flags : ℕ

-- `pack` on values that fit their fields; `encode_header` calls it on no others.
unfoldable pub pack : HeaderTuple → List ℕ
pack t =
    le_bytes 1 t.protocol_major
    ++ le_bytes 1 t.header_size_bytes
    ++ le_bytes 2 t.stream_ordinal
    ++ le_bytes 4 t.sequence
    ++ le_bytes 8 (i64_bits t.start_sample)
    ++ le_bytes 8 t.capture_monotonic_ns
    ++ le_bytes 2 t.sample_count
    ++ le_bytes 2 t.flags

-- `unpack_from(view, 0)` on 28 bytes or more.
unfoldable pub unpack_from : List ℕ → HeaderTuple
unpack_from at0 =
    let at1 = drop 1 at0 in
    let at2 = drop 1 at1 in
    let at4 = drop 2 at2 in
    let at8 = drop 4 at4 in
    let at16 = drop 8 at8 in
    let at24 = drop 8 at16 in
    let at26 = drop 2 at24 in
    record {
      protocol_major = from_le (take 1 at0);
      header_size_bytes = from_le (take 1 at1);
      stream_ordinal = from_le (take 2 at2);
      sequence = from_le (take 4 at4);
      start_sample = from_i64 (from_le (take 8 at8));
      capture_monotonic_ns = from_le (take 8 at16);
      sample_count = from_le (take 2 at24);
      flags = from_le (take 2 at26);
    }
