-- ===== src/PackedStructs/Encoding.antt =====
-- The JSON methods of `RGB` and `Mode`
-- (examples/10-tagged-union/go/tagged_union/tagged_union_structs_gen.go, lines 41-58, and
-- tagged_union_enums_gen.go, lines 11-72). The `encoding/json` package is the parameter `Json`.
pub mod RoundTrip
use zigo.Prelude.{
  ℕ, Bool, true, false, Option, none, some, List, [], ◌∷◌, ◌++◌, if◌then◌else◌, ◌&&◌, leb, get_or,
}
use zigo.Errors.{GoError}
use zigo.Handle.Common.{Result, ok, err}
use zigo.EnumText.{Bytes, codes, itoa, ==ᵇ}
use zigo.PackedStructs.{Rgb, Mode}

-- `json.Marshal` and `json.Unmarshal` at one type
pub record Json (Wire : Type 0) : Type 0 where
  pub marshal : Wire → Result Bytes
  pub unmarshal : Bytes → Result Wire

-- `zigoRGBJSON`
pub record RgbJson : Type 0 where
  pub r : ℕ
  pub g : ℕ
  pub b : ℕ

-- `RGB.MarshalJSON`
unfoldable pub marshal_rgb : Json RgbJson → Rgb → Result Bytes
marshal_rgb json value = json.marshal (record { r = value.r; g = value.g; b = value.b })

-- `RGB.UnmarshalJSON`: what the receiver holds afterwards, and the error
unfoldable pub unmarshal_rgb : Json RgbJson → Rgb → Bytes → Rgb × Option GoError
unmarshal_rgb json value data' = elim (json.unmarshal data') [
  | err e ↦ (value, some e)
  | ok wire ↦ (record { r = wire.r; g = wire.g; b = wire.b }, none)
]

-- `zigoModeNames`
abbrev mode_names : ℕ → Bytes
mode_names value = get_or (codes "idle" ∷ codes "active" ∷ codes "paused" ∷ []) value []

-- `Mode.String`
unfoldable pub mode_string : Mode → Bytes
mode_string value =
    if leb 0 value && leb value 2
    then mode_names value
    else codes "Mode(" ++ (itoa value ++ codes ")")

-- `ModeValues`
abbrev pub mode_values : List Mode
mode_values = 0 ∷ 1 ∷ 2 ∷ []

-- `Mode.IsKnown`
abbrev pub is_known : Mode → Bool
is_known value = leb 0 value && leb value 2

-- `Mode.MarshalJSON`
unfoldable pub marshal_mode : Json Bytes → Mode → Result Bytes
marshal_mode json value = json.marshal (mode_string value)

-- The error of `Mode.UnmarshalJSON`
pub data ModeError : Type 0 where
  json_error : GoError → ModeError
  -- `fmt.Errorf("Mode: unknown value %q", text)`
  unknown_value : Bytes → ModeError

-- The loop over the candidates
unfoldable pub select : Bytes → List Mode → Option Mode
select text [] = none
select text (candidate ∷ rest) =
    if is_known candidate && ==ᵇ (mode_string candidate) text
    then some candidate
    else select text rest

abbrev selected : Mode → Bytes → Option Mode → Mode × Option ModeError
selected value text (some candidate) = (candidate, none)
selected value text none = (value, some (unknown_value text))

-- `Mode.UnmarshalJSON`: what the receiver holds afterwards, and the error
unfoldable pub unmarshal_mode : Json Bytes → Mode → Bytes → Mode × Option ModeError
unmarshal_mode json value data' = elim (json.unmarshal data') [
  | err e ↦ (value, some (json_error e))
  | ok text ↦ selected value text (select text mode_values)
]
