-- ===== src/PackedStructs/Viewports.antt =====
-- The variants of `ScrollViewport`, and what crosses of one.
use zigo.Prelude.{ℕ, ◌≡◌, ◌∙◌, refl, ap, Bool, true, false, Option, none, some}
use zigo.PackedStructs.{
  Rgb, Region, ScrollViewport, viewport_top, viewport_bottom, viewport_delta, viewport_page,
  viewport_rgb, viewport_region, as_delta, as_page, as_rgb, as_region, scroll_viewport_from_raw,
  scroll_arguments, rgb_from_backing, rgb_to_backing,
}
use zigo.PackedStructs.RoundTrip.{IsRgb, rgb_from_backing-rgb_to_backing}

-- A viewport of the Zig union: one variant and its payload
pub data Viewport : Type 0 where
  top bottom : Viewport
  delta page : ℕ → Viewport
  rgb : Rgb → Viewport
  region : Region → Viewport

-- The Go value that the constructor of the variant makes
abbrev pub made : Viewport → ScrollViewport
made top = viewport_top
made bottom = viewport_bottom
made (delta n) = viewport_delta n
made (page n) = viewport_page n
made (rgb value) = viewport_rgb value
made (region value) = viewport_region value

-- The fields of its colour are bytes.
abbrev pub IsTyped : Viewport → Type 0
IsTyped (rgb value) = IsRgb value
IsTyped _ = Unit {0}

abbrev pub delta_of : Viewport → Option ℕ
delta_of (delta n) = some n
delta_of _ = none

abbrev pub page_of : Viewport → Option ℕ
page_of (page n) = some n
page_of _ = none

abbrev pub rgb_of : Viewport → Option Rgb
rgb_of (rgb value) = some value
rgb_of _ = none

abbrev pub region_of : Viewport → Option Region
region_of (region value) = some value
region_of _ = none

-- What a caller reads in an accessor's answer
abbrev pub read : {A : Type 0} → A × Bool → Option A
read (value, true) = some value
read (value, false) = none

decoded-rgb :
    (n : ℕ)
    → scroll_viewport_from_raw (record (scroll_arguments (viewport_top)) { tag = 4; rgb = n })
      ≡ viewport_rgb (rgb_from_backing n)
unfolding scroll_viewport_from_raw rgb_from_backing scroll_arguments viewport_top
decoded-rgb n = refl

-- `ScrollViewport`, for each of its six variants: what `zigoScrollViewportFromRaw` makes of the arguments
-- that `ScrollAmount` hands over is the value that was handed over, and of the four accessors exactly the
-- variant's own reports a payload, and the payload that the constructor was given.
pub scroll_viewport_from_raw-made :
    (v : Viewport)
    → IsTyped v
    → (scroll_viewport_from_raw (scroll_arguments (made v)) ≡ made v)
      × (read (as_delta (made v)) ≡ delta_of v)
      × (read (as_page (made v)) ≡ page_of v)
      × (read (as_rgb (made v)) ≡ rgb_of v)
      × (read (as_region (made v)) ≡ region_of v)
unfolding scroll_viewport_from_raw scroll_arguments viewport_top viewport_bottom viewport_delta
    viewport_page viewport_rgb viewport_region as_delta as_page as_rgb as_region
scroll_viewport_from_raw-made top h = (refl, refl, refl, refl, refl)
scroll_viewport_from_raw-made bottom h = (refl, refl, refl, refl, refl)
scroll_viewport_from_raw-made (delta n) h = (refl, refl, refl, refl, refl)
scroll_viewport_from_raw-made (page n) h = (refl, refl, refl, refl, refl)
scroll_viewport_from_raw-made (rgb value) h = (
  decoded-rgb (rgb_to_backing value)
      ∙ ap viewport_rgb (rgb_from_backing-rgb_to_backing value 0 h).0,
  refl,
  refl,
  refl,
  refl,
)
scroll_viewport_from_raw-made (region value) h = (refl, refl, refl, refl, refl)
