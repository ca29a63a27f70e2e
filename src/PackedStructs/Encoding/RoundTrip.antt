-- ===== src/PackedStructs/Encoding/RoundTrip.antt =====
-- Values that went through JSON.
use zigo.Prelude.{zero, suc, ◌≡◌, refl, Option, none, some, arith}
use zigo.Handle.Common.{ok}
use zigo.EnumText.{Bytes}
use zigo.PackedStructs.{Mode}
use zigo.PackedStructs.Encoding.{
  Json, mode_string, marshal_mode, ModeError, unknown_value, select, selected, mode_values,
  unmarshal_mode,
}

-- What `encoding/json` promises of a value that it can carry
abbrev pub Carried : {W : Type 0} → Json W → W → Type 0
Carried json w = (data' : Bytes) → json.marshal w ≡ ok data' → json.unmarshal data' ≡ ok w

-- What the receiver of `UnmarshalJSON` holds after it read a `Mode` back: one of the three exported tags,
-- ModeIdle, ModeActive and ModePaused, or what it held
abbrev pub read_back : Mode → Mode → Mode × Option ModeError
read_back old zero = (0, none)
read_back old (suc zero) = (1, none)
read_back old (suc (suc zero)) = (2, none)
read_back old value = (old, some (unknown_value (mode_string value)))

selected-string :
    (old value : Mode)
    → selected old (mode_string value) (select (mode_string value) mode_values)
      ≡ read_back old value
unfolding select mode_string
selected-string old zero = refl
selected-string old (suc zero) = refl
selected-string old (suc (suc zero)) = refl
selected-string old (suc (suc (suc n))) = ground arith

-- What `MarshalJSON` wrote of one of the three exported tags of `Mode`, `UnmarshalJSON` reads back, whatever
-- the receiver held. Of any other `Mode` it reports the text as unknown and leaves the receiver as it was.
-- The JSON package reads what it wrote of the value's text.
pub unmarshal_mode-marshal_mode :
    (texts : Json Bytes) (mode old : Mode) (mode_data : Bytes)
    → marshal_mode texts mode ≡ ok mode_data
    → Carried texts (mode_string mode)
    → unmarshal_mode texts old mode_data ≡ read_back old mode
unfolding marshal_mode unmarshal_mode
unmarshal_mode-marshal_mode texts mode old mode_data f t =
    rw (unmarshal_mode, t mode_data f) (selected-string old mode)
