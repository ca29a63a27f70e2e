-- ===== src/Conversions/RoundTrip.antt =====
-- From the public to the raw layer and back.
use zigo.Prelude.{◌≡◌, ◌↔◌, ◌≤◌, refl, ap, List, [], ◌∷◌, arith}
use zigo.Conversions.{
  Stats, StatsData, bool_to_uint8, stats_to_raw, stats_from_raw, stats_slice_to_raw,
  stats_slice_from_raw,
}

stats_from_raw-stats_to_raw : (value : Stats) → stats_from_raw (stats_to_raw value) ≡ value
unfolding stats_from_raw stats_to_raw bool_to_uint8
stats_from_raw-stats_to_raw value = ground arith

saturated-le : (d : StatsData) → stats_to_raw (stats_from_raw d) ≡ d → d.saturated ≤ 1
unfolding stats_from_raw stats_to_raw bool_to_uint8
saturated-le d e = ground (arith, ap (λ (x : StatsData). x.saturated) e)

stats_to_raw-stats_from_raw :
    (d : StatsData) → d.saturated ≤ 1 → stats_to_raw (stats_from_raw d) ≡ d
unfolding stats_from_raw stats_to_raw bool_to_uint8
stats_to_raw-stats_from_raw d h = ground arith

slices_round_trip :
    (values : List Stats) → stats_slice_from_raw (stats_slice_to_raw values) ≡ values
unfolding stats_slice_from_raw stats_slice_to_raw
slices_round_trip [] = refl
slices_round_trip (v ∷ vs) = rw (stats_from_raw-stats_to_raw v, slices_round_trip vs)

-- A slice of `Stats` that goes to the raw layer and comes back is the same slice; and a raw value
-- comes back from the public layer exactly if its bool is the byte 0 or 1.
pub stats-raw_round_trip :
    (values : List Stats) (d : StatsData)
    → (stats_slice_from_raw (stats_slice_to_raw values) ≡ values)
      × ((stats_to_raw (stats_from_raw d) ≡ d) ↔ (d.saturated ≤ 1))
stats-raw_round_trip values d =
    (slices_round_trip values, (saturated-le d, stats_to_raw-stats_from_raw d))
