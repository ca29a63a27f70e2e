-- ===== src/PackedStructs/RoundTrip.antt =====
-- Packed structs, and the integers that they cross as.
use mathlib.Core.HLevel.{Σ_prop_path, ×₃_prop}
use native.Mathlib.Bridge.{le_prop}
use std.Equiv.{Iso, IsEquiv, iso_to_equiv}
use zigo.Prelude.{ℕ, ◌+◌, ◌*◌, ◌%◌, ◌^◌, ◌<◌, ◌≡◌, ◌∙◌, ap, sym, subst, arith}
use zigo.Conversions.{bool_to_uint8}
use zigo.PackedStructs.{
  Rgb, Flags, rgb_to_backing, rgb_from_backing, flags_to_backing, flags_from_backing, ColorRecord,
  color_record_to_raw, color_record_from_raw, echo_color_record, ColorRecordData, echo_rgb,
  flatten_flags,
}
use zigo.PackedStructs.Packing.{
  rgb_to_backing-sum, rgb_from_backing-parts, flags_to_backing-sum, flags_from_backing-parts,
}

-- The Go types of the fields
abbrev pub IsRgb : Rgb → Type 0
IsRgb v = (v.r < 2 ^ 8) × (v.g < 2 ^ 8) × (v.b < 2 ^ 8)

-- The Zig types of the fields: `u3` and `u4`, in a `uint8` of Go, and the enum's byte
abbrev pub FitsFlags : Flags → Type 0
FitsFlags v = (v.level < 2 ^ 3) × (v.mode < 2 ^ 8) × (v.reserved < 2 ^ 4)

-- `RGB` crosses unchanged: reading the backing of a value gives the value, the backing has 24 bits, and
-- of an integer `RGBFromBacking` keeps exactly the 24 low bits.
pub rgb_from_backing-rgb_to_backing :
    (v : Rgb) (backing : ℕ)
    → IsRgb v
    → (rgb_from_backing (rgb_to_backing v) ≡ v)
      × (rgb_to_backing v < 2 ^ 24)
      × (rgb_to_backing (rgb_from_backing backing) ≡ backing % 2 ^ 24)
rgb_from_backing-rgb_to_backing v backing h =
    let sum = rgb_to_backing-sum v in
    let back : Rgb → ℕ = λ v. v.r % 256 + v.g % 256 * 256 + v.b % 256 * 65_536 in
    (
      rgb_from_backing-parts (rgb_to_backing v) ∙ ground (arith, sum),
      omega (arith, sum),
      rgb_to_backing-sum (rgb_from_backing backing)
          ∙ ap back (rgb_from_backing-parts backing)
          ∙ omega arith,
    )

-- `Flags` crosses as far as it fits the widths of the Zig fields: `Level` keeps its 3 low bits and
-- `Reserved` its 4 low bits, and the others are unchanged, for a mode of one byte.
pub flags_from_backing-flags_to_backing :
    (v : Flags)
    → v.mode < 2 ^ 8
    → flags_from_backing (flags_to_backing v)
      ≡ record v { level = v.level % 2 ^ 3; reserved = v.reserved % 2 ^ 4 }
unfolding bool_to_uint8
flags_from_backing-flags_to_backing v h =
    flags_from_backing-parts (flags_to_backing v) ∙ ground (arith, flags_to_backing-sum v)

-- Of a `uint16`, `FlagsFromBacking` loses nothing.
pub flags_to_backing-flags_from_backing :
    (backing : ℕ) → backing < 2 ^ 16 → flags_to_backing (flags_from_backing backing) ≡ backing
unfolding bool_to_uint8
flags_to_backing-flags_from_backing backing h =
    let sum : Flags → ℕ =
      λ v. bool_to_uint8 v.enabled + v.level % 8 * 2 + v.mode % 256 * 16 + v.reserved % 16 * 4096 in
    flags_to_backing-sum (flags_from_backing backing)
    ∙ ap sum (flags_from_backing-parts backing)
    ∙ ground arith

-- The flags that fit, and the integers of 16 bits
abbrev pub FittingFlags : Type 0
FittingFlags = (v : Flags) × FitsFlags v

abbrev pub Uint16 : Type 0
Uint16 = (n : ℕ) × (n < 2 ^ 16)

flags_to_backing-lt : (v : Flags) → flags_to_backing v < 2 ^ 16
unfolding bool_to_uint8
flags_to_backing-lt v = ground (arith, flags_to_backing-sum v)

flags_from_backing-FitsFlags : (n : ℕ) → FitsFlags (flags_from_backing n)
flags_from_backing-FitsFlags n =
    subst FitsFlags (sym (flags_from_backing-parts n)) (omega arith, omega arith, omega arith)

-- `Flags.Backing`, between the two
pub fitting_backing : FittingFlags → Uint16
fitting_backing (v, fits) = (flags_to_backing v, flags_to_backing-lt v)

fits_prop : (v : Flags) → IsProp (FitsFlags v)
fits_prop v = ×₃_prop le_prop le_prop le_prop

-- `Backing` is an equivalence between the `Flags` whose fields fit their Zig widths and the integers of 16
-- bits: every such integer is the backing of exactly one of them.
pub fitting_backing-IsEquiv : IsEquiv fitting_backing
unfolding fitting_backing
fitting_backing-IsEquiv = (iso_to_equiv both_ways).1
  where
    both_ways : Iso FittingFlags Uint16
    both_ways = record {
      fun = fitting_backing;
      inv = λ (n, small). (flags_from_backing n, flags_from_backing-FitsFlags n);
      rinv = λ (n, small). Σ_prop_path (λ n. le_prop) (flags_to_backing-flags_from_backing n small);
      linv = λ (v, fits).
          Σ_prop_path fits_prop (flags_from_backing-flags_to_backing v fits.1 ∙ ground arith);
    }

-- An `RGB` that the native side echoes comes back as it was, and so does a `ColorRecord` whose flags fit
-- their Zig widths, and such flags through `FlattenFlags`.
pub echo_color_record-Same :
    (native_rgb native_flags : ℕ → ℕ) (native : ColorRecordData → ColorRecordData) (rgb : Rgb)
    (value : ColorRecord)
    → ((n : ℕ) → native_rgb n ≡ n)
    → ((n : ℕ) → native_flags n ≡ n)
    → ((d : ColorRecordData) → native d ≡ d)
    → IsRgb rgb
    → FitsFlags value.flags
    → (echo_rgb native_rgb rgb ≡ rgb)
      × (echo_color_record native value ≡ value)
      × (flatten_flags native_flags value.flags ≡ value.flags)
unfolding echo_rgb echo_color_record flatten_flags color_record_to_raw color_record_from_raw
echo_color_record-Same native_rgb native_flags native rgb value e f g h fits =
    let flags : flags_from_backing (flags_to_backing value.flags) ≡ value.flags =
      flags_from_backing-flags_to_backing value.flags fits.1 ∙ ground arith in
    (
      ap rgb_from_backing (e _) ∙ (rgb_from_backing-rgb_to_backing rgb 0 h).0,
      ap color_record_from_raw (g _)
          ∙ ap (λ (f : Flags). record { flags = f; code = value.code }) flags,
      ap flags_from_backing (f _) ∙ flags,
    )
