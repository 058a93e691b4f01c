-- ===== src/Packing/Bytes.antt =====
-- Little-endian integers and two's complement (Packing): each direction undoes the other.
use realtime_meeting_transla.Prelude.{
  ℕ, zero, suc, ◌+◌, ◌-◌, ◌*◌, ◌/◌, ◌%◌, ◌^◌, ◌≤◌, ◌<◌, ◌≡◌, refl, ap, ◌∙◌, List, [], ◌∷◌, ◌++◌,
  length, take, drop, arith, take-length_append, drop-length_append, length-take, length-drop,
  take-append-drop, All-take, All-drop, All-append,
}
use realtime_meeting_transla.Prelude.Int.{ℤ, pos, negsuc, ◌≤ℤ◌, ◌<ℤ◌}
use realtime_meeting_transla.Packing.{IsBytes, le_bytes, from_le, i64_bits, from_i64}

pub length-le_bytes : (w n : ℕ) → length (le_bytes w n) ≡ w
unfolding le_bytes
length-le_bytes zero n = refl
length-le_bytes (suc w) n = ap suc (length-le_bytes w (n / 256))

pub le_bytes-IsBytes : (w n : ℕ) → IsBytes (le_bytes w n)
unfolding le_bytes
le_bytes-IsBytes zero n = tt
le_bytes-IsBytes (suc w) n = (omega arith, le_bytes-IsBytes w (n / 256))

pub from_le-le_bytes : (w n : ℕ) → n < 256 ^ w → from_le (le_bytes w n) ≡ n
unfolding le_bytes from_le
from_le-le_bytes zero n h = omega arith
from_le-le_bytes (suc w) n h = omega (arith, from_le-le_bytes w (n / 256) (omega arith))

pub from_le-bound : (w : ℕ) (bs : List ℕ) → length bs ≡ w → IsBytes bs → from_le bs < 256 ^ w
unfolding from_le
from_le-bound zero [] e h = omega arith
from_le-bound (suc w) [] e h = omega arith
from_le-bound zero (b ∷ bs) e h = omega (arith, e)
from_le-bound (suc w) (b ∷ bs) e (hb, h) = omega (arith, from_le-bound w bs (omega (arith, e)) h)

pub le_bytes-from_le : (bs : List ℕ) → IsBytes bs → le_bytes (length bs) (from_le bs) ≡ bs
unfolding le_bytes from_le
le_bytes-from_le [] h = refl
le_bytes-from_le (b ∷ bs) (hb, h) =
    let low : (b + 256 * from_le bs) % 256 ≡ b = omega arith in
    let high : (b + 256 * from_le bs) / 256 ≡ from_le bs = omega arith in
    rw (low, high) (ap (◌∷◌ b) (le_bytes-from_le bs h))

pub take_field : (w n : ℕ) (rest : List ℕ) → take w (le_bytes w n ++ rest) ≡ le_bytes w n
take_field w n rest =
    rw (← ap (λ k. take k (le_bytes w n ++ rest)) (length-le_bytes w n))
      (take-length_append (le_bytes w n) rest)

-- A field read back where it was written, and what is left after it.
pub read_field :
    (w n : ℕ) (rest : List ℕ) → n < 256 ^ w → from_le (take w (le_bytes w n ++ rest)) ≡ n
read_field w n rest h = ap from_le (take_field w n rest) ∙ from_le-le_bytes w n h

pub skip_field : (w n : ℕ) (rest : List ℕ) → drop w (le_bytes w n ++ rest) ≡ rest
skip_field w n rest =
    rw (← ap (λ k. drop k (le_bytes w n ++ rest)) (length-le_bytes w n))
      (drop-length_append (le_bytes w n) rest)

pub i64_bits-bound : (x : ℤ) → x <ℤ pos (2 ^ 63) → negsuc (2 ^ 63 - 1) ≤ℤ x → i64_bits x < 2 ^ 64
unfolding i64_bits
i64_bits-bound x hi lo = ground arith

pub from_i64-i64_bits :
    (x : ℤ) → x <ℤ pos (2 ^ 63) → negsuc (2 ^ 63 - 1) ≤ℤ x → from_i64 (i64_bits x) ≡ x
unfolding i64_bits from_i64
from_i64-i64_bits x hi lo = ground arith

pub i64_bits-from_i64 : (b : ℕ) → b < 2 ^ 64 → i64_bits (from_i64 b) ≡ b
unfolding i64_bits from_i64
i64_bits-from_i64 b h = ground arith

pub append-IsBytes : (xs ys : List ℕ) → IsBytes xs → IsBytes ys → IsBytes (xs ++ ys)
append-IsBytes = All-append (λ b. b < 256)

-- At least `n` bytes.
abbrev pub Holds : ℕ → List ℕ → Type 0
Holds n bs = IsBytes bs × n ≤ length bs

pub drop-Holds : (w n : ℕ) (bs : List ℕ) → Holds (w + n) bs → Holds n (drop w bs)
drop-Holds w n bs (h, e) = (All-drop (λ b. b < 256) w bs h, omega (arith, length-drop w bs))

pub field_bound : (w n : ℕ) (bs : List ℕ) → Holds (w + n) bs → from_le (take w bs) < 256 ^ w
field_bound w n bs (h, e) =
    from_le-bound w (take w bs) (length-take w bs (omega arith)) (All-take (λ b. b < 256) w bs h)

-- A field written back in front of what followed it.
pub rewrite_field :
    (w n : ℕ) (bs tail : List ℕ)
    → Holds (w + n) bs
    → tail ≡ drop w bs
    → le_bytes w (from_le (take w bs)) ++ tail ≡ bs
rewrite_field w n bs tail (h, e) t =
    let long = length-take w bs (omega arith) in
    let written = le_bytes-from_le (take w bs) (All-take (λ b. b < 256) w bs h) in
    rw (t, ← ap (λ k. le_bytes k (from_le (take w bs))) long, written) (take-append-drop w bs)

pub from_i64-bounds :
    (b : ℕ) → b < 2 ^ 64 → (negsuc (2 ^ 63 - 1) ≤ℤ from_i64 b) × (from_i64 b <ℤ pos (2 ^ 63))
unfolding from_i64
from_i64-bounds b h = ground arith
