-- ===== src/Tests/Packed.antt =====
-- Packed structs, viewports and their encoding.
use zigo.Prelude.{◌≡◌, refl, sym, true, none, some, [], ◌∷◌, arith}
use zigo.Handle.Common.{Result, ok, err}
use zigo.EnumText.{Bytes, codes, itoa, decimal}
use zigo.Errors.{status_error}
use zigo.Prelude.Int.{pos}
use zigo.PackedStructs.{
  Rgb, Flags, scroll_viewport_from_raw, scroll_arguments, as_delta, as_page, as_rgb, as_region,
}
use zigo.PackedStructs.Viewports.{rgb, made, read, scroll_viewport_from_raw-made}
use zigo.PackedStructs.Encoding.{
  Json, RgbJson, mode_string, marshal_mode, unmarshal_mode, unknown_value,
}
use zigo.PackedStructs.Encoding.RoundTrip.{unmarshal_mode-marshal_mode}

abbrev orange : Rgb
orange = record { r = 255; g = 128; b = 7 }

-- The level does not fit 3 bits.
abbrev loud : Flags
loud = record { enabled = true; level = 13; mode = 2; reserved = 1 }

scroll_viewport_from_raw-made_example :
    (scroll_viewport_from_raw (scroll_arguments (made (rgb orange))) ≡ made (rgb orange))
    × (read (as_delta (made (rgb orange))) ≡ none)
    × (read (as_page (made (rgb orange))) ≡ none)
    × (read (as_rgb (made (rgb orange))) ≡ some orange)
    × (read (as_region (made (rgb orange))) ≡ none)
scroll_viewport_from_raw-made_example =
    scroll_viewport_from_raw-made (rgb orange) (omega arith, omega arith, omega arith)

-- JSON packages that write the three numbers, or the text
abbrev colors : Json RgbJson
colors = record { marshal = λ w. ok (w.r ∷ w.g ∷ w.b ∷ []); unmarshal = three }
  where
    three : Bytes → Result RgbJson
    three (r ∷ g ∷ b ∷ rest) = ok (record { r = r; g = g; b = b })
    three _ = err (status_error "json" (pos 0))

abbrev texts : Json Bytes
texts = record { marshal = λ text. ok text; unmarshal = λ text. ok text }

-- `Mode(7)` is no exported tag.
unmarshal_mode-marshal_mode_example :
    unmarshal_mode texts 1 (codes "Mode(7)") ≡ (1, some (unknown_value (codes "Mode(7)")))
unfolding marshal_mode mode_string itoa decimal
unmarshal_mode-marshal_mode_example =
    unmarshal_mode-marshal_mode texts 7 1 (codes "Mode(7)") refl (λ data' e. sym e)
