-- ===== src/TaggedUnion/Methods/Keeping.antt =====
-- What the methods of one handle leave of it, and what they read back.
use zigo.Prelude.{ℕ, ◌+◌, ◌%◌, ◌<◌, ◌≡◌, false, true, [], String, ◌<>◌, word, arith}
use zigo.Prelude.Int.{ℤ, pos}
use zigo.Errors.Classify.{is_panic_code}
use zigo.Handle.Common.{Pointer, ok}
use zigo.Handle.Lifecycle.{Lifecycle, Laws}
use zigo.PackedStructs.{Flags, flags_to_backing}
use zigo.PackedStructs.RoundTrip.{flags_from_backing-flags_to_backing}
use zigo.TaggedUnion.Codes.{union_error_for_code-calm}
use zigo.TaggedUnion.Handles.{Owned, acquire, release, take_locked}
use zigo.TaggedUnion.Methods.{union_call, union_answered, palette_flags, palette_set_flags}
use zigo.TaggedUnion.Methods.Children.{lets_in}
use zigo.TaggedUnion.Values.Restoring.{Kept, acquired-Kept}

module _ {H : Type 0} (l : Lifecycle H) (message : ℤ → String) where
  union_answered-Kept :
      {A B : Type 0} (operation : String) (convert : A → B) (answer : A × ℤ) (h h' : H)
      → is_panic_code answer.1 ≡ false
      → l.release h' ≡ (h, [])
      → Kept h (union_answered message l operation convert answer h')
  unfolding union_answered
  union_answered-Kept operation convert (result, code) h h' calm back =
      ground (arith, union_error_for_code-calm message l.poison operation code h' calm, back)

  -- A method of the package that takes one handle, of whatever type, gives it back as it was and releases
  -- nothing, whether the handle refuses the call, the native side reports an error or the call
  -- succeeds; the native call does not end in a Zig panic, and the handle has room for one more call.
  pub union_call-Kept :
      {HasRoom : H → Type 0} {A B : Type 0} (laws : Laws l HasRoom) (operation : String)
      (native : Pointer → A × ℤ) (convert : A → B) (h : H)
      → HasRoom h
      → ((p : Pointer) → is_panic_code (native p).1 ≡ false)
      → Kept h (union_call message l operation native convert h)
  unfolding union_call
  union_call-Kept laws operation native convert h room calm =
      acquired-Kept l message h (l.acquire (operation <> " receiver") h)
        (λ ptr held. union_answered message l operation convert (native ptr) held)
        (λ ptr held back. union_answered-Kept operation convert (native ptr) h held (calm ptr) back)
        (laws.undoable (operation <> " receiver") h room)

-- `Palette.Flags` after `Palette.SetFlags`, on a palette that lets calls in and has room for one: it gives the
-- flags that were set, with `Level` and `Reserved` cut to 3 and 4 bits, for a native side that accepts
-- them and keeps the integer it was handed; and both calls leave the palette as it was.
pub palette_flags-palette_set_flags :
    (message : ℤ → String) (set_native : Pointer → ℕ → ℤ) (get_native : Pointer → ℕ × ℤ)
    (flags : Flags) (palette : Owned)
    → flags.mode < 256
    → lets_in message palette ≡ true
    → palette.active + 1 < word
    → set_native palette.ptr (flags_to_backing flags) ≡ pos 0
    → get_native palette.ptr ≡ (flags_to_backing flags, pos 0)
    → (palette_set_flags message set_native flags palette ≡ (palette, ok tt, []))
      × (palette_flags message get_native palette ≡ (
        palette,
        ok (record flags { level = flags.level % 8; reserved = flags.reserved % 16 }),
        [],
      ))
unfolding palette_flags palette_set_flags union_call union_answered acquire release take_locked
palette_flags-palette_set_flags message set_native get_native flags palette small open' room set
      get =
    ground (arith, flags_from_backing-flags_to_backing flags small)
