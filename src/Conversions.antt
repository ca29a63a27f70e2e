-- ===== src/Conversions.antt =====
-- Value structs between the public and the raw layer
-- (examples/07-event-queue/go/event_queue/event_queue_structs_gen.go).
-- A `uint32` or `int32` is its bit pattern, a `Policy` its number, `[4]int32` a list of four. A nil
-- slice is the empty list, as every reader of it sees it.
pub mod RoundTrip
pub mod Copying
use zigo.Prelude.{
  ℕ, zero, suc, ◌+◌, ◌-◌, ◌^◌, Bool, true, false, not, Option, none, some, List, [], ◌∷◌, map,
  length, get_elem?, set, if◌then◌else◌, ltb, ◌==◌,
}
use zigo.Prelude.Int.{ℤ, pos, negsuc}

pub record Stats : Type 0 where
  pub len : ℕ
  pub capacity : ℕ
  pub dropped : ℕ
  pub processed : ℕ
  pub policy : ℕ
  pub saturated : Bool
  pub recent : List ℕ

-- `raw.StatsData`, where a bool is a byte
pub record StatsData : Type 0 where
  pub len : ℕ
  pub capacity : ℕ
  pub dropped : ℕ
  pub processed : ℕ
  pub policy : ℕ
  pub saturated : ℕ
  pub recent : List ℕ

pub record Limits : Type 0 where
  pub capacity : ℕ
  pub policy : ℕ

pub record LimitsData : Type 0 where
  pub capacity : ℕ
  pub policy : ℕ

pub record TickerInfo : Type 0 where
  pub interval : ℕ
  pub ticks : ℕ

pub record TickerInfoData : Type 0 where
  pub interval : ℕ
  pub ticks : ℕ

-- `zigoBoolToUint8`
unfoldable pub bool_to_uint8 : Bool → ℕ
bool_to_uint8 value = if value then 1 else 0

-- `zigoStatsToRaw`
unfoldable pub stats_to_raw : Stats → StatsData
unfolding bool_to_uint8
stats_to_raw value = record {
  len = value.len;
  capacity = value.capacity;
  dropped = value.dropped;
  processed = value.processed;
  policy = value.policy;
  saturated = bool_to_uint8 value.saturated;
  recent = value.recent;
}

-- `zigoStatsFromRaw`
unfoldable pub stats_from_raw : StatsData → Stats
stats_from_raw value = record {
  len = value.len;
  capacity = value.capacity;
  dropped = value.dropped;
  processed = value.processed;
  policy = value.policy;
  saturated = not (value.saturated == 0);
  recent = value.recent;
}

-- `zigoStatsSliceToRaw`: a loop over a result of the same length
unfoldable pub stats_slice_to_raw : List Stats → List StatsData
stats_slice_to_raw [] = []
stats_slice_to_raw (value ∷ rest) = stats_to_raw value ∷ stats_slice_to_raw rest

-- `zigoStatsSliceFromRaw`
unfoldable pub stats_slice_from_raw : List StatsData → List Stats
stats_slice_from_raw [] = []
stats_slice_from_raw (value ∷ rest) = stats_from_raw value ∷ stats_slice_from_raw rest

-- `int(result)` of a uint
abbrev pub to_int : ℕ → ℤ
to_int n = if ltb n (2 ^ 63) then pos n else negsuc (2 ^ 64 - 1 - n)

-- `if count > n { count = n }`
abbrev pub at_most : ℕ → ℤ → ℤ
at_most n (pos count) = if ltb n count then pos n else pos count
at_most n (negsuc m) = negsuc m

-- `dst[i] = zigoStatsFromRaw(values[i])`; the loop's bound keeps `i` in both slices
abbrev pub copy_one : ℕ → Option StatsData → List Stats → List Stats
copy_one i none dst = dst
copy_one i (some value) dst = set dst i (stats_from_raw value)

-- `left` more rounds of the loop from index `i` on
unfoldable pub copy_loop : ℕ → ℕ → List StatsData → List Stats → List Stats
copy_loop i zero values dst = dst
copy_loop i (suc left) values dst =
    copy_loop (i + 1) left values (copy_one i (get_elem? values i) dst)

abbrev pub rounds : ℤ → ℕ
rounds (pos count) = count
rounds (negsuc m) = 0

-- `zigoStatsSliceCopyFromRaw`
unfoldable pub stats_slice_copy_from_raw : List Stats → List StatsData → ℤ → List Stats
stats_slice_copy_from_raw dst values count =
    copy_loop 0 (rounds (at_most (length values) (at_most (length dst) count))) values dst

-- `zigoLimitsToRaw` and `zigoLimitsFromRaw`
unfoldable pub limits_to_raw : Limits → LimitsData
limits_to_raw value = record { capacity = value.capacity; policy = value.policy }

unfoldable pub limits_from_raw : LimitsData → Limits
limits_from_raw value = record { capacity = value.capacity; policy = value.policy }

-- `zigoLimitsSliceView`: the same memory read as the other type, whose layout is checked to agree
unfoldable pub limits_slice_view : List LimitsData → List Limits
limits_slice_view [] = []
limits_slice_view (value ∷ rest) = limits_from_raw value ∷ limits_slice_view rest

-- `zigoTickerInfoToRaw` and `zigoTickerInfoFromRaw`
unfoldable pub ticker_info_to_raw : TickerInfo → TickerInfoData
ticker_info_to_raw value = record { interval = value.interval; ticks = value.ticks }

unfoldable pub ticker_info_from_raw : TickerInfoData → TickerInfo
ticker_info_from_raw value = record { interval = value.interval; ticks = value.ticks }
