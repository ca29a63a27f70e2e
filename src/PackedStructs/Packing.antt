-- ===== src/PackedStructs/Packing.antt =====
-- The masks and shifts of a packed struct as arithmetic.
use native.Mathlib.Nat.{mod-eq_of_lt}
use zigo.Prelude.{ℕ, ◌+◌, ◌*◌, ◌/◌, ◌%◌, ◌^◌, ◌<◌, ◌≡◌, not, ◌==◌, arith}
use zigo.Prelude.Bits.{ones, bit_and-ones, bit_or-shifted}
use zigo.Conversions.{bool_to_uint8}
use zigo.PackedStructs.{
  put_bits, get_bits, Flags, Rgb, rgb_to_backing, rgb_from_backing, flags_to_backing,
  flags_from_backing,
}

put_bits-add :
    (shift k field result : ℕ)
    → result < 2 ^ shift
    → field % 2 ^ k * 2 ^ shift < 2 ^ 64
    → put_bits shift (ones k) field result ≡ result + field % 2 ^ k * 2 ^ shift
unfolding put_bits
put_bits-add shift k field result low fits =
    rw (bit_and-ones k field, mod-eq_of_lt fits) (bit_or-shifted shift result (field % 2 ^ k) low)

get_bits-mod : (shift k value : ℕ) → get_bits shift (ones k) value ≡ value / 2 ^ shift % 2 ^ k
unfolding get_bits
get_bits-mod shift k value = bit_and-ones k (value / 2 ^ shift)

-- The backing of an `RGB` is its fields side by side, eight bits each.
pub rgb_to_backing-sum :
    (value : Rgb)
    → rgb_to_backing value ≡ value.r % 256 + value.g % 256 * 256 + value.b % 256 * 65_536
unfolding rgb_to_backing
rgb_to_backing-sum value =
    let r : put_bits 0 0xff value.r 0 ≡ value.r % 256 =
      omega (arith, put_bits-add 0 8 value.r 0 (omega arith) (omega arith)) in
    let g = put_bits-add 8 8 value.g (value.r % 256) (omega arith) (omega arith) in
    let b =
      put_bits-add 16 8 value.b (value.r % 256 + value.g % 256 * 256) (omega arith) (omega arith) in
    rw (r, g, b) (omega arith)

pub rgb_from_backing-parts :
    (value : ℕ)
    → rgb_from_backing value
      ≡ record { r = value % 256; g = value / 256 % 256; b = value / 65_536 % 256 }
unfolding rgb_from_backing
rgb_from_backing-parts value =
    rw (get_bits-mod 0 8 value, get_bits-mod 8 8 value, get_bits-mod 16 8 value) (ground arith)

-- The backing of `Flags` is its fields side by side, in 1, 3, 8 and 4 bits.
pub flags_to_backing-sum :
    (value : Flags)
    → flags_to_backing value
      ≡ bool_to_uint8 value.enabled
        + value.level % 8 * 2
        + value.mode % 256 * 16
        + value.reserved % 16 * 4096
unfolding flags_to_backing bool_to_uint8
flags_to_backing-sum value =
    let e : ℕ = bool_to_uint8 value.enabled in
    let small : e < 2 = ground arith in
    let enabled : put_bits 0 0x1 e 0 ≡ e =
      omega (arith, small, put_bits-add 0 1 e 0 (omega arith) (omega arith)) in
    let level = put_bits-add 1 3 value.level e (omega (arith, small)) (omega arith) in
    let mode =
      put_bits-add 4 8 value.mode (e + value.level % 8 * 2) (omega (arith, small)) (omega arith) in
    let reserved =
      put_bits-add 12 4 value.reserved (e + value.level % 8 * 2 + value.mode % 256 * 16)
        (omega (arith, small)) (omega arith) in
    rw (enabled, level, mode, reserved) (omega (arith, small))

pub flags_from_backing-parts :
    (value : ℕ)
    → flags_from_backing value ≡ record {
      enabled = not (value % 2 == 0);
      level = value / 2 % 8;
      mode = value / 16 % 256;
      reserved = value / 4096 % 16;
    }
unfolding flags_from_backing
flags_from_backing-parts value =
    rw
      (
        get_bits-mod 0 1 value,
        get_bits-mod 1 3 value,
        get_bits-mod 4 8 value,
        get_bits-mod 12 4 value,
      )
      (ground arith)
