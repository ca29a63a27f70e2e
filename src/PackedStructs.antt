-- ===== src/PackedStructs.antt =====
-- Packed structs, and the tagged union that crosses by copy
-- (examples/10-tagged-union/go/tagged_union/tagged_union_structs_gen.go, with the functions of
-- tagged_union_gen.go, lines 418-475, that pass such values).
-- A `uint8`, `uint16` or `uint32` is its value, a `Mode` its number, and an `int`, `int16` or `uint` its
-- bit pattern. The native functions are parameters.
pub mod Packing
pub mod RoundTrip
pub mod Viewports
pub mod Encoding
use Prim.Native.Nat.{bit_and, bit_or}
use zigo.Prelude.{ℕ, ◌*◌, ◌/◌, ◌%◌, ◌^◌, Bool, true, false, not, String, if◌then◌else◌, ◌==◌}
use zigo.Prelude.Int.{ℤ, pos, ==ℤ}
use zigo.Errors.{GoError}
use zigo.TaggedUnion.Codes.{union_error_for_code}
use zigo.Handle.Common.{Result, ok, err}
use zigo.Conversions.{bool_to_uint8}

-- `result |= (field & mask) << shift`, on uint64
unfoldable pub put_bits : ℕ → ℕ → ℕ → ℕ → ℕ
put_bits shift mask field result = bit_or result (bit_and field mask * 2 ^ shift % 2 ^ 64)

-- `(value >> shift) & mask`, on uint64
unfoldable pub get_bits : ℕ → ℕ → ℕ → ℕ
get_bits shift mask value = bit_and (value / 2 ^ shift) mask

pub record Rgb : Type 0 where
  pub r : ℕ
  pub g : ℕ
  pub b : ℕ

-- `zigoRGBToBacking`
unfoldable pub rgb_to_backing : Rgb → ℕ
rgb_to_backing value =
    put_bits 16 0xff value.b (put_bits 8 0xff value.g (put_bits 0 0xff value.r 0)) % 2 ^ 32

-- `RGBFromBacking`
unfoldable pub rgb_from_backing : ℕ → Rgb
rgb_from_backing value = record {
  r = get_bits 0 0xff value % 2 ^ 8;
  g = get_bits 8 0xff value % 2 ^ 8;
  b = get_bits 16 0xff value % 2 ^ 8;
}

abbrev pub Mode : Type 0
Mode = ℕ

pub record Flags : Type 0 where
  pub enabled : Bool
  pub level : ℕ
  pub mode : Mode
  pub reserved : ℕ

-- `zigoFlagsToBacking`
unfoldable pub flags_to_backing : Flags → ℕ
flags_to_backing value =
    put_bits 12 0xf value.reserved (
      put_bits 4 0xff value.mode
        (put_bits 1 0x7 value.level (put_bits 0 0x1 (bool_to_uint8 value.enabled) 0)))
    % 2 ^ 16

-- `FlagsFromBacking`
unfoldable pub flags_from_backing : ℕ → Flags
flags_from_backing value = record {
  enabled = not (get_bits 0 0x1 value == 0);
  level = get_bits 1 0x7 value % 2 ^ 8;
  mode = get_bits 4 0xff value % 2 ^ 8;
  reserved = get_bits 12 0xf value % 2 ^ 8;
}

pub record ColorRecord : Type 0 where
  pub flags : Flags
  pub code : ℕ

-- `raw.ColorRecordData`
pub record ColorRecordData : Type 0 where
  pub flags : ℕ
  pub code : ℕ

-- `zigoColorRecordToRaw`
unfoldable pub color_record_to_raw : ColorRecord → ColorRecordData
color_record_to_raw value = record { flags = flags_to_backing value.flags; code = value.code }

-- `zigoColorRecordFromRaw`
unfoldable pub color_record_from_raw : ColorRecordData → ColorRecord
color_record_from_raw value = record { flags = flags_from_backing value.flags; code = value.code }

pub record Point : Type 0 where
  pub x : ℕ
  pub y : ℕ

pub record Region : Type 0 where
  pub origin : Point
  pub width : ℕ

-- `ScrollViewport`, with a field for each payload
pub record ScrollViewport : Type 0 where
  pub tag : ℕ
  pub delta : ℕ
  pub page : ℕ
  pub rgb : Rgb
  pub region : Region

-- `ScrollViewport{}`
abbrev pub zero_viewport : ScrollViewport
zero_viewport = record {
  tag = 0;
  delta = 0;
  page = 0;
  rgb = record { r = 0; g = 0; b = 0 };
  region = record { origin = record { x = 0; y = 0 }; width = 0 };
}

-- `ScrollViewportTop` and the other constructors
unfoldable pub viewport_top : ScrollViewport
viewport_top = record zero_viewport { tag = 0 }

unfoldable pub viewport_bottom : ScrollViewport
viewport_bottom = record zero_viewport { tag = 1 }

unfoldable pub viewport_delta : ℕ → ScrollViewport
viewport_delta n = record zero_viewport { tag = 2; delta = n }

unfoldable pub viewport_page : ℕ → ScrollViewport
viewport_page n = record zero_viewport { tag = 3; page = n }

unfoldable pub viewport_rgb : Rgb → ScrollViewport
viewport_rgb value = record zero_viewport { tag = 4; rgb = value }

unfoldable pub viewport_region : Region → ScrollViewport
viewport_region value = record zero_viewport { tag = 5; region = value }

-- `ScrollViewport.AsDelta` and the other accessors: the payload, and whether it is the active variant
unfoldable pub as_delta : ScrollViewport → ℕ × Bool
as_delta value = (value.delta, value.tag == 2)

unfoldable pub as_page : ScrollViewport → ℕ × Bool
as_page value = (value.page, value.tag == 3)

unfoldable pub as_rgb : ScrollViewport → Rgb × Bool
as_rgb value = (value.rgb, value.tag == 4)

unfoldable pub as_region : ScrollViewport → Region × Bool
as_region value = (value.region, value.tag == 5)

-- `raw.ScrollViewportData`
pub record ScrollViewportData : Type 0 where
  pub tag : ℕ
  pub delta : ℕ
  pub page : ℕ
  pub rgb : ℕ
  pub region_origin_x : ℕ
  pub region_origin_y : ℕ
  pub region_width : ℕ

-- `zigoScrollViewportFromRaw`
unfoldable pub scroll_viewport_from_raw : ScrollViewportData → ScrollViewport
scroll_viewport_from_raw value =
    if value.tag == 0
    then viewport_top
    else if value.tag == 1
    then viewport_bottom
    else if value.tag == 2
    then viewport_delta value.delta
    else if value.tag == 3
    then viewport_page value.page
    else if value.tag == 4
    then viewport_rgb (record {
      r = get_bits 0 0xff value.rgb % 2 ^ 8;
      g = get_bits 8 0xff value.rgb % 2 ^ 8;
      b = get_bits 16 0xff value.rgb % 2 ^ 8;
    })
    else if value.tag == 5
    then viewport_region (record {
      origin = record { x = value.region_origin_x; y = value.region_origin_y };
      width = value.region_width;
    })
    else zero_viewport

-- The arguments that `ScrollAmount` hands over, gathered as the record that has a field for each
unfoldable pub scroll_arguments : ScrollViewport → ScrollViewportData
scroll_arguments behavior = record {
  tag = behavior.tag;
  delta = behavior.delta;
  page = behavior.page;
  rgb = rgb_to_backing behavior.rgb;
  region_origin_x = behavior.region.origin.x;
  region_origin_y = behavior.region.origin.y;
  region_width = behavior.region.width;
}

-- `ScrollAmount`
unfoldable pub scroll_amount : (ScrollViewportData → ℕ) → ScrollViewport → ℕ
scroll_amount native behavior = native (scroll_arguments behavior)

-- `EchoRgb`
unfoldable pub echo_rgb : (ℕ → ℕ) → Rgb → Rgb
echo_rgb native value = rgb_from_backing (native (rgb_to_backing value))

-- `MaybeRgb`
unfoldable pub maybe_rgb : (ℕ → ℕ × Bool) → Bool → Rgb × Bool
maybe_rgb native present =
    let (result, has) = native (bool_to_uint8 present) in (rgb_from_backing result, has)

-- `EchoColorRecord`
unfoldable pub echo_color_record : (ColorRecordData → ColorRecordData) → ColorRecord → ColorRecord
echo_color_record native value = color_record_from_raw (native (color_record_to_raw value))

-- `FlattenFlags`
unfoldable pub flatten_flags : (ℕ → ℕ) → Flags → Flags
flatten_flags native flags = flags_from_backing (native (flags_to_backing flags))

module _ (panic_message : ℤ → String) where
  -- `CheckedRgb`
  unfoldable pub checked_rgb : (ℕ → ℕ × ℤ) → Bool → Result Rgb
  checked_rgb native valid =
      let (result, code) = native (bool_to_uint8 valid) in
      if not (==ℤ code (pos 0))
      then err (union_error_for_code panic_message "CheckedRgb" code)
      else ok (rgb_from_backing result)

  -- `CurrentViewport`
  unfoldable pub current_viewport : (ℕ → ScrollViewportData × ℤ) → ℕ → Result ScrollViewport
  current_viewport native kind =
      let (result, code) = native kind in
      if not (==ℤ code (pos 0))
      then err (union_error_for_code panic_message "CurrentViewport" code)
      else ok (scroll_viewport_from_raw result)
