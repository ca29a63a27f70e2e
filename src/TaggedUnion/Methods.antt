-- ===== src/TaggedUnion/Methods.antt =====
-- The methods and constructors of the tagged union package
-- (examples/10-tagged-union/go/tagged_union/tagged_union_gen.go): each makes one native call, on handles
-- that it acquires first. The native side is a parameter.
pub mod Keeping
pub mod Children
use zigo.Prelude.{
  ℕ, Bool, true, false, not, Option, none, some, List, [], ◌∷◌, ◌++◌, String, ◌<>◌, if◌then◌else◌,
}
use zigo.Prelude.Int.{ℤ, pos, ==ℤ}
use zigo.Errors.{GoError}
use zigo.Errors.Classify.{poison_after_panic}
use zigo.Handle.Common.{Pointer, Result, ok, err, Effect}
use zigo.Handle.Lifecycle.{Lifecycle}
use zigo.Conversions.{bool_to_uint8}
use zigo.PackedStructs.{Flags, Mode, flags_to_backing, flags_from_backing}
use zigo.TaggedUnion.Codes.{union_error_for_code}
use zigo.TaggedUnion.Handles as Handles
use zigo.TaggedUnion.Handles.{Owned, child, value, signal, palette}
use zigo.TaggedUnion.Values.{Read, leaving}

module _ (panic_message : ℤ → String) where
  -- What follows the native call
  unfoldable pub union_answered :
      {H A B : Type 0} → Lifecycle H → String → (A → B) → A × ℤ → H → Read H B
  union_answered l operation convert (result, code) h =
      let e = union_error_for_code panic_message operation code in
      if not (==ℤ code (pos 0))
      then leaving (err e) (l.release (poison_after_panic l.poison e h))
      else leaving (ok (convert result)) (l.release h)

  -- A method of one handle
  unfoldable pub union_call :
      {H A B : Type 0} → Lifecycle H → String → (Pointer → A × ℤ) → (A → B) → H → Read H B
  union_call l operation native convert receiver =
      let (held, acquired, effects) = l.acquire (operation <> " receiver") receiver in
      elim acquired [
        | err e ↦ (held, err e, effects)
        | ok ptr ↦ union_answered l operation convert (native ptr) held
      ]

  -- A method that returns an error only
  abbrev command : {H : Type 0} → Lifecycle H → String → (Pointer → ℤ) → H → Read H (Unit {0})
  command l operation native =
      union_call l operation (λ ptr. (tt, native ptr)) (λ (u : Unit {0}). u)

  -- `Palette.Flags`
  unfoldable pub palette_flags : (Pointer → ℕ × ℤ) → Owned → Read Owned Flags
  palette_flags native = union_call palette "Palette.Flags" native flags_from_backing

  -- `Palette.SetFlags`
  unfoldable pub palette_set_flags : (Pointer → ℕ → ℤ) → Flags → Owned → Read Owned (Unit {0})
  palette_set_flags native v =
      command palette "Palette.SetFlags" (λ ptr. native ptr (flags_to_backing v))

  -- `Palette.PinnedMode`: the mode, and whether it was present
  unfoldable pub palette_pinned_mode : (Pointer → (ℕ × Bool) × ℤ) → Owned → Read Owned (Mode × Bool)
  palette_pinned_mode native =
      union_call palette "Palette.PinnedMode" native (λ (result, has). (result, has))

  -- `Palette.SetPinnedMode`; a nil argument is `none`.
  unfoldable pub palette_set_pinned_mode :
      (Pointer → Option ℕ → ℤ) → Option Mode → Owned → Read Owned (Unit {0})
  palette_set_pinned_mode native v = command palette "Palette.SetPinnedMode" (λ ptr. native ptr v)

  -- `Palette.Name`
  unfoldable pub palette_name : (Pointer → List ℕ × ℤ) → Owned → Read Owned (List ℕ)
  palette_name native = union_call palette "Palette.Name" native (λ result. result)

  -- What a constructor makes of the native answer
  abbrev constructed : String → Option String → Pointer × ℤ → Result Owned
  constructed operation site (result, code) =
      if not (==ℤ code (pos 0))
      then err (union_error_for_code panic_message operation code)
      else ok (Handles.new result site)

  -- `NewChild`
  unfoldable pub new_child : (ℕ → Pointer × ℤ) → Option String → ℕ → Result Owned
  new_child native site number = constructed "NewChild" site (native number)

  -- `NewValue`
  unfoldable pub new_value : (ℕ → Pointer × ℤ) → Option String → ℕ → Result Owned
  new_value native site initial = constructed "NewValue" site (native initial)

  -- `NewSignal`
  unfoldable pub new_signal : (ℕ → Pointer × ℤ) → Option String → ℕ → Result Owned
  new_signal native site initial = constructed "NewSignal" site (native initial)

  -- `NewPalette`
  unfoldable pub new_palette : (ℕ → Pointer × ℤ) → Option String → Flags → Result Owned
  new_palette native site flags = constructed "NewPalette" site (native (flags_to_backing flags))

  -- `Child.Get`
  unfoldable pub child_get : (Pointer → ℕ × ℤ) → Owned → Read Owned ℕ
  child_get native = union_call child "Child.Get" native (λ result. result)

  -- `Value.SetNone`
  unfoldable pub value_set_none : (Pointer → ℤ) → Owned → Read Owned (Unit {0})
  value_set_none = command value "Value.SetNone"

  -- `Value.SetFlag`
  unfoldable pub value_set_flag : (Pointer → ℕ → ℤ) → Bool → Owned → Read Owned (Unit {0})
  value_set_flag native flag =
      command value "Value.SetFlag" (λ ptr. native ptr (bool_to_uint8 flag))

  -- `Value.SetMode`
  unfoldable pub value_set_mode : (Pointer → ℕ → ℤ) → Mode → Owned → Read Owned (Unit {0})
  value_set_mode native mode = command value "Value.SetMode" (λ ptr. native ptr mode)

  -- `Value.UsePresetSamples`
  unfoldable pub use_preset_samples : (Pointer → ℤ) → Owned → Read Owned (Unit {0})
  use_preset_samples = command value "Value.UsePresetSamples"

  -- `Value.UseEmptySamples`
  unfoldable pub use_empty_samples : (Pointer → ℤ) → Owned → Read Owned (Unit {0})
  use_empty_samples = command value "Value.UseEmptySamples"

  -- `Value.UseMutableSamples`
  unfoldable pub use_mutable_samples : (Pointer → ℤ) → Owned → Read Owned (Unit {0})
  use_mutable_samples = command value "Value.UseMutableSamples"

  -- `Value.Borrow`: the pointer of the `ValueRef`, whose parent is the receiver
  unfoldable pub value_borrow : (Pointer → Pointer × ℤ) → Owned → Read Owned Pointer
  value_borrow native = union_call value "Value.Borrow" native (λ result. result)

  -- `Signal.SetIdle`
  unfoldable pub signal_set_idle : (Pointer → ℤ) → Owned → Read Owned (Unit {0})
  signal_set_idle = command signal "Signal.SetIdle"

  -- `Signal.SetTicks`
  unfoldable pub signal_set_ticks : (Pointer → ℕ → ℤ) → ℕ → Owned → Read Owned (Unit {0})
  signal_set_ticks native ticks = command signal "Signal.SetTicks" (λ ptr. native ptr ticks)

  -- `Signal.SetLevel`
  unfoldable pub signal_set_level : (Pointer → ℕ → ℤ) → ℕ → Owned → Read Owned (Unit {0})
  signal_set_level native level = command signal "Signal.SetLevel" (λ ptr. native ptr level)

  -- `Signal.SetOffset`
  unfoldable pub signal_set_offset : (Pointer → ℕ → ℤ) → ℕ → Owned → Read Owned (Unit {0})
  signal_set_offset native offset = command signal "Signal.SetOffset" (λ ptr. native ptr offset)

  -- `Signal.SetMode`
  unfoldable pub signal_set_mode : (Pointer → ℕ → ℤ) → Mode → Owned → Read Owned (Unit {0})
  signal_set_mode native mode = command signal "Signal.SetMode" (λ ptr. native ptr mode)

  -- `Signal.SetActive`
  unfoldable pub signal_set_active : (Pointer → ℕ → ℤ) → Bool → Owned → Read Owned (Unit {0})
  signal_set_active native active =
      command signal "Signal.SetActive" (λ ptr. native ptr (bool_to_uint8 active))
