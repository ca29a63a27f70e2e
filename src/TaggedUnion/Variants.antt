-- ===== src/TaggedUnion/Variants.antt =====
-- The projections against the value that the native side holds.
use mathlib.Core.Option.{map as map_option}
use zigo.Prelude.{
  ℕ, ◌≡◌, Bool, false, not, Option, none, some, List, String, ◌<>◌, if◌then◌else◌, ◌==◌, arith,
}
use zigo.Prelude.Int.{ℤ, ==ℤ}
use zigo.Errors.{is, is_sentinel, native_panic}
use zigo.Errors.Classify.{is_panic_code, poison_after_panic}
use zigo.Handle.Common.{Pointer, Result, ok, err, Effect}
use zigo.Handle.Parent.{Parent}
use zigo.TaggedUnion.{
  Raw, SnapshotData, SignalVariant, signal_idle, signal_ticks, signal_level, signal_offset,
  signal_mode, signal_active, projection_success, projection_mismatch, projection_error, signal_as,
  signal_as_ticks, signal_as_level, signal_as_offset, signal_as_mode, signal_snapshot,
  signal_variant, variant_of, finish,
}

abbrev pub tag_of : SignalVariant → ℕ
tag_of signal_idle = 0
tag_of (signal_ticks v) = 1
tag_of (signal_level v) = 2
tag_of (signal_offset v) = 3
tag_of (signal_mode v) = 4
tag_of (signal_active v) = 5

-- The payload of one variant, if the value is of it
abbrev pub ticks_of : SignalVariant → Option ℕ
ticks_of (signal_ticks v) = some v
ticks_of _ = none

abbrev pub level_of : SignalVariant → Option ℕ
level_of (signal_level v) = some v
level_of _ = none

abbrev pub offset_of : SignalVariant → Option ℕ
offset_of (signal_offset v) = some v
offset_of _ = none

abbrev pub mode_of : SignalVariant → Option ℕ
mode_of (signal_mode v) = some v
mode_of _ = none

abbrev pub active_of : SignalVariant → Option Bool
active_of (signal_active v) = some v
active_of _ = none

-- A projection that answers for the payload `o`: its value and success, or a mismatch
abbrev pub Answers : ℕ × ℤ → Option ℕ → Type 0
Answers (v, status) (some w) = (v ≡ w) × (status ≡ projection_success)
Answers (v, status) none = status ≡ projection_mismatch

abbrev pub Carries : SnapshotData → SignalVariant → Type 0
Carries d (signal_active v) = (d.tag ≡ 5) × (d.active ≡ (if v then 1 else 0))
Carries d (signal_ticks v) = (d.tag ≡ 1) × (d.ticks ≡ v)
Carries d (signal_level v) = (d.tag ≡ 2) × (d.level ≡ v)
Carries d (signal_offset v) = (d.tag ≡ 3) × (d.offset ≡ v)
Carries d (signal_mode v) = (d.tag ≡ 4) × (d.mode ≡ v)
Carries d signal_idle = d.tag ≡ 0

-- What the Zig side promises of a union at `ptr` that holds `v`
pub record Holds (raw : Raw) (ptr : Pointer) (v : SignalVariant) : Type 0 where
  pub tag : (raw.project_tag ptr).0 ≡ tag_of v
  pub tag_success : (raw.project_tag ptr).1 ≡ projection_success
  pub ticks : Answers (raw.project_ticks ptr) (ticks_of v)
  pub level : Answers (raw.project_level ptr) (level_of v)
  pub offset : Answers (raw.project_offset ptr) (offset_of v)
  pub mode : Answers (raw.project_mode ptr) (mode_of v)
  pub snapshot : Carries (raw.read_snapshot ptr).0 v
  pub snapshot_success : (raw.read_snapshot ptr).1 ≡ projection_success

module _ {H : Type 0} (lifecycle : Parent H) (raw : Raw) where
  -- A call that got `receiver` in and ends with `result`
  abbrev pub ended {ℓ} : {A : Type ℓ} → String → H → Result A → H × List Effect × Result A
  ended operation receiver result =
      finish lifecycle raw (lifecycle.acquire operation receiver).0 result

  variant_of-Carries :
      (d : SnapshotData) (v : SignalVariant)
      → Carries d v
      → variant_of lifecycle raw (record {
        tag = d.tag;
        level = d.level;
        ticks = d.ticks;
        offset = d.offset;
        mode = d.mode;
        active = not (d.active == 0);
      })
        ≡ ok v
  unfolding variant_of
  variant_of-Carries d signal_idle h = ground arith
  variant_of-Carries d (signal_ticks v) h = ground arith
  variant_of-Carries d (signal_level v) h = ground arith
  variant_of-Carries d (signal_offset v) h = ground arith
  variant_of-Carries d (signal_mode v) h = ground arith
  variant_of-Carries d (signal_active v) h = ground arith

  -- `Variant` of a handle that lets the call in gives exactly the value that the union holds, and leaves
  -- the handle as the end of that call does.
  pub signal_variant-Holds :
      (receiver : H) (ptr : Pointer) (v : SignalVariant)
      → (lifecycle.acquire "Signal.Snapshot receiver" receiver).1 ≡ ok ptr
      → Holds raw ptr v
      → signal_variant lifecycle raw receiver ≡ ended "Signal.Snapshot receiver" receiver (ok v)
  unfolding signal_variant signal_snapshot finish
  signal_variant-Holds receiver ptr v a h =
      ground (arith, variant_of-Carries (raw.read_snapshot ptr).0 v h.snapshot)

  signal_as-Answers {ℓ} :
      {A : Type ℓ} (operation : String) (project : Pointer → ℕ × ℤ) (convert : ℕ → A) (receiver : H)
      (ptr : Pointer) (o : Option ℕ)
      → (lifecycle.acquire (operation <> " receiver") receiver).1 ≡ ok ptr
      → Answers (project ptr) o
      → signal_as lifecycle raw operation project convert receiver
        ≡ ended (operation <> " receiver") receiver (ok (map_option convert o))
  unfolding signal_as
  signal_as-Answers operation project convert receiver ptr none a h = ground arith
  signal_as-Answers operation project convert receiver ptr (some w) a h = ground arith

  -- A projection that the native side does not answer: the caller gets `ErrNativePanic` exactly for a
  -- status of -256 or below, and exactly then the receiver is poisoned before it is released.
  pub signal_as-fails :
      (operation : String) (project : Pointer → ℕ × ℤ) (convert : ℕ → ℕ) (receiver : H)
      (ptr : Pointer)
      → (lifecycle.acquire (operation <> " receiver") receiver).1 ≡ ok ptr
      → ==ℤ (project ptr).1 projection_mismatch ≡ false
      → ==ℤ (project ptr).1 projection_success ≡ false
      → let status = (project ptr).1 in
        let e = projection_error raw.panic_message operation status in
        let held = (lifecycle.acquire (operation <> " receiver") receiver).0 in
        (signal_as lifecycle raw operation project convert receiver
          ≡ finish lifecycle raw
              (if is_panic_code status
                then lifecycle.poison
                    (record { operation = operation; message = raw.panic_message status })
                    held
                else held)
              (err e))
        × (is e (is_sentinel native_panic) ≡ is_panic_code status)
  unfolding signal_as projection_error poison_after_panic is finish
  signal_as-fails operation project convert receiver ptr a mismatch success = ground arith

  -- The numeric accessors of a union that lets every call in agree with the value that it holds: `AsTicks`
  -- reports a payload exactly if the value is of the variant `ticks`, and then that payload, and the
  -- others the same.
  pub signal_as-Holds :
      (receiver : H) (ptr : Pointer) (v : SignalVariant)
      → ((operation : String) → (lifecycle.acquire operation receiver).1 ≡ ok ptr)
      → Holds raw ptr v
      → (signal_as_ticks lifecycle raw receiver
          ≡ ended "Signal.AsTicks receiver" receiver (ok (ticks_of v)))
        × (signal_as_level lifecycle raw receiver
            ≡ ended "Signal.AsLevel receiver" receiver (ok (level_of v)))
        × (signal_as_offset lifecycle raw receiver
            ≡ ended "Signal.AsOffset receiver" receiver (ok (offset_of v)))
        × (signal_as_mode lifecycle raw receiver
            ≡ ended "Signal.AsMode receiver" receiver (ok (mode_of v)))
  signal_as-Holds receiver ptr v a h = (
    agrees "Signal.AsTicks" raw.project_ticks (ticks_of v) h.ticks,
    agrees "Signal.AsLevel" raw.project_level (level_of v) h.level,
    agrees "Signal.AsOffset" raw.project_offset (offset_of v) h.offset,
    agrees "Signal.AsMode" raw.project_mode (mode_of v) h.mode,
  )
    where
      agrees :
          (op : String) (project : Pointer → ℕ × ℤ) (o : Option ℕ)
          → Answers (project ptr) o
          → signal_as lifecycle raw op project (λ result. result) receiver
            ≡ ended (op <> " receiver") receiver (ok o)
      agrees op project none answers =
          signal_as-Answers op project (λ result. result) receiver ptr none (a _) answers
      agrees op project (some w) answers =
          signal_as-Answers op project (λ result. result) receiver ptr (some w) (a _) answers
