-- ===== src/TaggedUnion.antt =====
-- The projections of a tagged union
-- (examples/10-tagged-union/go/tagged_union/tagged_union_union_signal_gen.go, with
-- tagged_union_runtime_gen.go, lines 25-60, and the tags of tagged_union_enums_gen.go).
-- The receiver `H` is any handle type, through the interface of Handle.Parent. The calls of the raw
-- package are the parameter `Raw`: a value beside a status. An integer payload is its bit pattern, a
-- `float64` too.
pub mod Variants
pub mod Codes
pub mod Handles
pub mod Values
pub mod Methods
use zigo.Prelude.{
  ℕ, zero, suc, Bool, true, false, not, Option, none, some, List, [], ◌∷◌, String, ◌<>◌,
  if◌then◌else◌, ◌==◌,
}
use zigo.Prelude.Int.{ℤ, pos, ==ℤ}
use zigo.Errors.{GoError, native_panic_error, handle_error, status_error}
use zigo.Errors.Classify.{is_panic_code, poison_after_panic}
use zigo.Handle.Common.{Pointer, Result, ok, err, Effect}
use zigo.Handle.Parent.{Parent}

-- `raw.SignalSnapshot`'s data
pub record SnapshotData : Type 0 where
  pub tag : ℕ
  pub level : ℕ
  pub ticks : ℕ
  pub offset : ℕ
  pub mode : ℕ
  pub active : ℕ

pub record Raw : Type 0 where
  pub project_tag : Pointer → ℕ × ℤ
  pub project_ticks : Pointer → ℕ × ℤ
  pub project_level : Pointer → ℕ × ℤ
  pub project_offset : Pointer → ℕ × ℤ
  pub project_mode : Pointer → ℕ × ℤ
  pub project_active : Pointer → ℕ × ℤ
  pub read_snapshot : Pointer → SnapshotData × ℤ
  pub panic_message : ℤ → String

abbrev pub projection_mismatch : ℤ
projection_mismatch = pos 0

abbrev pub projection_success : ℤ
projection_success = pos 1

abbrev projection_invalid_handle : ℤ
projection_invalid_handle = pos 2

-- `zigoProjectionError`
unfoldable pub projection_error : (ℤ → String) → String → ℤ → GoError
projection_error panic_message operation status =
    if is_panic_code status
    then native_panic_error (record { operation = operation; message = panic_message status })
    else if ==ℤ status projection_invalid_handle
    then handle_error operation
    else status_error operation status

abbrev pub SignalTag : Type 0
SignalTag = ℕ

-- `SignalSnapshot`
pub record SignalSnapshot : Type 0 where
  pub tag : SignalTag
  pub level : ℕ
  pub ticks : ℕ
  pub offset : ℕ
  pub mode : ℕ
  pub active : Bool

-- `SignalVariant`, with its constructors in the order of the tags
pub data SignalVariant : Type 0 where
  signal_idle : SignalVariant
  signal_ticks : ℕ → SignalVariant
  signal_level : ℕ → SignalVariant
  signal_offset : ℕ → SignalVariant
  signal_mode : ℕ → SignalVariant
  signal_active : Bool → SignalVariant

-- `SignalSnapshot.Level` and the others: the payload, and whether it is the captured variant
unfoldable pub snapshot_level : SignalSnapshot → ℕ × Bool
snapshot_level s = (s.level, s.tag == 2)

unfoldable pub snapshot_ticks : SignalSnapshot → ℕ × Bool
snapshot_ticks s = (s.ticks, s.tag == 1)

unfoldable pub snapshot_offset : SignalSnapshot → ℕ × Bool
snapshot_offset s = (s.offset, s.tag == 3)

unfoldable pub snapshot_mode : SignalSnapshot → ℕ × Bool
snapshot_mode s = (s.mode, s.tag == 4)

unfoldable pub snapshot_active : SignalSnapshot → Bool × Bool
snapshot_active s = (s.active, s.tag == 5)

module _ {H : Type 0} (lifecycle : Parent H) (raw : Raw) where
  -- The deferred release at the end of a call
  unfoldable pub finish {ℓ} : {A : Type ℓ} → H → Result A → H × List Effect × Result A
  finish receiver result =
      let (receiver', effects) = lifecycle.release receiver in (receiver', effects, result)

  abbrev fail {ℓ} : {A : Type ℓ} → String → ℤ → H → H × List Effect × Result A
  fail operation status receiver =
      let e = projection_error raw.panic_message operation status in
      finish (poison_after_panic lifecycle.poison e receiver) (err e)

  -- `zigoSignalTag`
  unfoldable pub signal_tag : H → H × List Effect × Result SignalTag
  unfolding finish
  signal_tag receiver =
      let (held, acquired) = lifecycle.acquire "Signal.Tag receiver" receiver in
      elim acquired [
        | err e ↦ (held, [], err e)
        | ok ptr ↦
            let (result, status) = raw.project_tag ptr in
            if not (==ℤ status projection_success)
            then fail "Signal.Tag" status held
            else finish held (ok result)
      ]

  -- The body that the five `zigoSignalAs…` share; a mismatch is `none`
  unfoldable pub signal_as {ℓ} :
      {A : Type ℓ} → String → (Pointer → ℕ × ℤ) → (ℕ → A) → H → H × List Effect × Result (Option A)
  unfolding finish
  signal_as operation project convert receiver =
      let (held, acquired) = lifecycle.acquire (operation <> " receiver") receiver in
      elim acquired [
        | err e ↦ (held, [], err e)
        | ok ptr ↦
            let (result, status) = project ptr in
            if ==ℤ status projection_mismatch
            then finish held (ok none)
            else if not (==ℤ status projection_success)
            then fail operation status held
            else finish held (ok (some (convert result)))
      ]

  abbrev pub signal_as_ticks : H → H × List Effect × Result (Option ℕ)
  signal_as_ticks = signal_as "Signal.AsTicks" raw.project_ticks (λ result. result)

  abbrev pub signal_as_level : H → H × List Effect × Result (Option ℕ)
  signal_as_level = signal_as "Signal.AsLevel" raw.project_level (λ result. result)

  abbrev pub signal_as_offset : H → H × List Effect × Result (Option ℕ)
  signal_as_offset = signal_as "Signal.AsOffset" raw.project_offset (λ result. result)

  abbrev pub signal_as_mode : H → H × List Effect × Result (Option ℕ)
  signal_as_mode = signal_as "Signal.AsMode" raw.project_mode (λ result. result)

  abbrev pub signal_as_active : H → H × List Effect × Result (Option Bool)
  signal_as_active = signal_as "Signal.AsActive" raw.project_active (λ result. not (result == 0))

  -- `zigoSignalSnapshot`
  unfoldable pub signal_snapshot : H → H × List Effect × Result SignalSnapshot
  unfolding finish
  signal_snapshot receiver =
      let (held, acquired) = lifecycle.acquire "Signal.Snapshot receiver" receiver in
      elim acquired [
        | err e ↦ (held, [], err e)
        | ok ptr ↦
            let (data', status) = raw.read_snapshot ptr in
            if not (==ℤ status projection_success)
            then fail "Signal.Snapshot" status held
            else finish held (
                ok (record {
                  tag = data'.tag;
                  level = data'.level;
                  ticks = data'.ticks;
                  offset = data'.offset;
                  mode = data'.mode;
                  active = not (data'.active == 0);
                }))
      ]

  unfoldable pub variant_of : SignalSnapshot → Result SignalVariant
  variant_of s =
      if s.tag == 0
      then ok signal_idle
      else if s.tag == 1
      then ok (signal_ticks s.ticks)
      else if s.tag == 2
      then ok (signal_level s.level)
      else if s.tag == 3
      then ok (signal_offset s.offset)
      else if s.tag == 4
      then ok (signal_mode s.mode)
      else if s.tag == 5
      then ok (signal_active s.active)
      else err (projection_error raw.panic_message "Signal.Variant" projection_mismatch)

  -- `zigoSignalVariant`
  unfoldable pub signal_variant : H → H × List Effect × Result SignalVariant
  unfolding variant_of
  signal_variant receiver =
      let (held, effects, result) = signal_snapshot receiver in
      elim result [ err e ↦ (held, effects, err e) | ok s ↦ (held, effects, variant_of s) ]
