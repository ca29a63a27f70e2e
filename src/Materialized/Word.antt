-- ===== src/Materialized/Word.antt =====
-- `zigoMaterializedWord` against the little-endian value of its bytes.
use native.Mathlib.Nat.{pow-le-pow_right, pow-suc}
use native.Mathlib.Numerals.{towards_suc}
use zigo.Prelude.{
  ℕ, zero, suc, ◌+◌, ◌*◌, ◌^◌, ◌%◌, ◌≤◌, ◌<◌, ◌≡◌, List, [], ◌∷◌, length, length-take, take, drop,
  if◌then◌else◌, leb, word, arith,
}
use zigo.Prelude.Bits.{bit_or-shifted}
use zigo.Materialized.{Buffer, returns, panics, invalid_buffer, little_endian, word_loop, word_at}
use zigo.Materialized.Readers.{range, bytes_at_lem}

abbrev pub AllBytes : List ℕ → Type 0
AllBytes [] = Unit {0}
AllBytes (b ∷ bs) = (b < 256) × AllBytes bs

pow-add_eight : (s : ℕ) → 2 ^ (s + 8) ≡ 2 ^ s * 256
pow-add_eight s = simp towards_suc (omega arith)

pow256-suc : (i : ℕ) → 2 ^ (8 * (i + 1)) ≡ 2 ^ (8 * i) * 256
pow256-suc i = let e : 8 * (i + 1) ≡ 8 * i + 8 = omega arith in rw e (pow-add_eight (8 * i))

pow256-le : (i : ℕ) → i < 8 → 2 ^ (8 * i) * 256 ≤ word
pow256-le i h =
    let below : 2 ^ (8 * (i + 1)) ≤ 2 ^ 64 =
      pow-le-pow_right (omega arith) {j = 64} (omega arith) in
    omega (arith, below, pow256-suc i)

-- A byte put into the place that its shift gives it fits below the next place.
byte-le : (p b : ℕ) → b < 256 → b * p ≤ 255 * p
byte-le p b h = grind arith

word_loop_lem :
    (bs : List ℕ) (i value : ℕ)
    → AllBytes bs
    → i + length bs ≤ 8
    → value < 2 ^ (8 * i)
    → word_loop i value bs ≡ value + 2 ^ (8 * i) * little_endian bs
unfolding word_loop little_endian
word_loop_lem [] i value all fits small = omega arith
word_loop_lem (b ∷ bs) i value all fits small =
    let p = 2 ^ (8 * i) in
    let place = byte-le p b all.0 in
    let unwrapped : b * p % word ≡ b * p = omega (arith, place, pow256-le i (omega arith)) in
    let next : value + b * p < 2 ^ (8 * (i + 1)) = omega (arith, place, pow256-suc i) in
    let rest : word_loop (i + 1) (value + b * p) bs ≡ value + b * p + p * 256 * little_endian bs =
      rw (← pow256-suc i) (word_loop_lem bs (i + 1) (value + b * p) all.1 (omega arith) next) in
    rw (unwrapped, bit_or-shifted (8 * i) value b small, rest) (omega arith)

AllBytes-drop : (n : ℕ) (bs : List ℕ) → AllBytes bs → AllBytes (drop n bs)
AllBytes-drop zero bs all = all
AllBytes-drop (suc n) [] all = tt
AllBytes-drop (suc n) (b ∷ bs) all = AllBytes-drop n bs all.1

AllBytes-take : (n : ℕ) (bs : List ℕ) → AllBytes bs → AllBytes (take n bs)
AllBytes-take zero bs all = tt
AllBytes-take (suc n) [] all = tt
AllBytes-take (suc n) (b ∷ bs) all = (all.0, AllBytes-take n bs all.1)

-- Over bytes that lie in the buffer, `zigoMaterializedWord` of one to eight bytes is their
-- little-endian value; a range that does not lie there panics with the decoder's own message.
pub word_at_lem :
    (buffer : Buffer) (offset width : ℕ)
    → AllBytes buffer
    → length buffer < 2 ^ 63
    → offset < word
    → width ≤ 8
    → word_at buffer offset width ≡ (
        if leb (offset + width) (length buffer)
        then returns (little_endian (range buffer offset width))
        else panics invalid_buffer)
unfolding word_at
word_at_lem buffer offset width all small o w =
    let bytes = range buffer offset width in
    let len : length bytes ≤ 8 = omega (arith, length-take width (drop offset buffer)) in
    let value : word_loop 0 0 bytes ≡ 0 + 2 ^ (8 * 0) * little_endian bytes =
      word_loop_lem bytes 0 0 (AllBytes-take width _ (AllBytes-drop offset buffer all))
        (omega arith) (omega arith) in
    ground (arith, bytes_at_lem buffer offset width small o, value)

pub little_endian-lt : (bs : List ℕ) → AllBytes bs → little_endian bs < 256 ^ length bs
unfolding little_endian
little_endian-lt [] all = omega arith
little_endian-lt (b ∷ bs) all =
    rw (pow-suc 256 (length bs)) (omega (arith, little_endian-lt bs all.1))

pub AllBytes-range :
    (offset n : ℕ) (buffer : List ℕ) → AllBytes buffer → AllBytes (range buffer offset n)
AllBytes-range offset n buffer all = AllBytes-take n _ (AllBytes-drop offset buffer all)
