-- ===== src/Materialized/Readers.antt =====
-- The readers against the byte range that each is asked for, in unbounded numbers.
use zigo.Prelude.{
  ℕ, ◌+◌, ◌-◌, ◌*◌, ◌^◌, ◌<◌, ◌≡◌, List, length, take, drop, if◌then◌else◌, leb, word, mul64, arith,
}
use native.Mathlib.Nat.{le-div_iff_mul-le}
use zigo.Materialized.{Buffer, returns, panics, invalid_buffer, little_endian, u64, bytes_at, array}

-- The bytes of [offset, offset + len)
abbrev pub range : Buffer → ℕ → ℕ → List ℕ
range buffer offset len = take len (drop offset buffer)

-- `zigoMaterializedBytes` returns the range that it is asked for if that lies in the buffer, and
-- otherwise panics with its own message; no sum that wraps round 2 ^ 64 gets past its tests.
pub bytes_at_lem :
    (buffer : Buffer) (offset len : ℕ)
    → length buffer < 2 ^ 63
    → offset < word
    → len < word
    → bytes_at buffer offset len ≡ (
        if leb (offset + len) (length buffer)
        then returns (range buffer offset len)
        else panics invalid_buffer)
unfolding bytes_at
bytes_at_lem buffer offset len small o l = ground arith

-- `zigoMaterializedU64` returns the little-endian value of the eight bytes at the offset if they lie in
-- the buffer, and otherwise panics with the decoder's own message.
pub u64_lem :
    (buffer : Buffer) (offset : ℕ)
    → length buffer < 2 ^ 63
    → offset < word
    → u64 buffer offset ≡ (
        if leb (offset + 8) (length buffer)
        then returns (little_endian (range buffer offset 8))
        else panics invalid_buffer)
unfolding u64
u64_lem buffer offset small o = ground arith

-- `zigoMaterializedArray` accepts exactly the arrays that lie in the buffer, where `count * stride`
-- is the true product, and returns their bytes.
pub array_lem :
    (buffer : Buffer) (offset count stride : ℕ)
    → length buffer < 2 ^ 63
    → offset < word
    → 0 < stride
    → array buffer offset count stride ≡ (
        if leb (offset + count * stride) (length buffer)
        then returns (range buffer offset (count * stride))
        else panics invalid_buffer)
unfolding array
array_lem buffer offset count stride small o pos_stride =
    let fits = le-div_iff_mul-le {k = stride} {x = count} {y = length buffer - offset} pos_stride in
    ground (arith, fits, bytes_at_lem buffer offset (mul64 count stride) small o)
