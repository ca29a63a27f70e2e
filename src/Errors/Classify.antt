-- ===== src/Errors/Classify.antt =====
-- From the status code of a native call to an error, and to poisoned handles:
-- `zigoErrorForCode` (examples/07-event-queue/go/event_queue/event_queue_errors_gen.go, lines 87-109)
-- and `PoisonAfterPanic` (lifecycle_gen.go, lines 134-141).
-- An `int32` code is a signed number. `raw.PanicMessage`, which asks the native side, is a parameter.
use zigo.Prelude.{
  ◌-◌, ◌≡◌, Bool, false, not, ◌&&◌, List, [], ◌∷◌, String, ◌<>◌, if◌then◌else◌, leb, get_or, arith,
}
use zigo.Prelude.Int.{ℤ, pos, negsuc, ==ℤ, itoa}
use zigo.Errors.{
  GoError, NativePanicError, native_panic_error, zig_error, is, is_sentinel, is_zig, native_panic,
}
use text.Mathlib.Text.{◌==◌ as str_eq}

-- `zigoErrorNames`
abbrev pub error_names : List String
error_names =
    "OutOfMemory" ∷ "InvalidName" ∷ "InvalidCapacity" ∷ "Full" ∷ "Empty" ∷ "InvalidLimit"
    ∷ "ObserverPanicked" ∷ "InvalidInterval" ∷ "Invalid" ∷ []

-- `code <= -256`
abbrev pub is_panic_code : ℤ → Bool
is_panic_code (pos n) = false
is_panic_code (negsuc n) = leb 255 n

named_error : String → ℤ → String → GoError
named_error operation code name =
    if str_eq name ""
    then zig_error code ("Unknown(" <> itoa code <> ")") operation
    else zig_error code name operation

error_of : String → ℤ → GoError
unfolding named_error
error_of operation (pos n) =
    if leb 1 n && leb n 9
    then named_error operation (pos n) (get_or error_names (n - 1) "")
    else zig_error (pos n) ("Unknown(" <> itoa (pos n) <> ")") operation
error_of operation code = zig_error code ("Unknown(" <> itoa code <> ")") operation

-- `zigoErrorForCode`
unfoldable pub error_for_code : (ℤ → String) → String → ℤ → GoError
unfolding error_of
error_for_code panic_message operation code =
    if is_panic_code code
    then native_panic_error (record { operation = operation; message = panic_message code })
    else error_of operation code

-- `PoisonAfterPanic`: what it does to one handle, whose `poison` is given
unfoldable pub poison_after_panic {ℓ} : {H : Type ℓ} → (NativePanicError → H → H) → GoError → H → H
poison_after_panic poison (native_panic_error cause) h = poison cause h
poison_after_panic poison _ h = h

pub error_for_code-is :
    {H : Type 0} (panic_message : ℤ → String) (poison : NativePanicError → H → H)
    (operation : String) (code other : ℤ) (h : H)
    → let e = error_for_code panic_message operation code in
      (is e (is_sentinel native_panic) ≡ is_panic_code code)
      × (is e (is_zig other) ≡ (not (is_panic_code code) && ==ℤ code other))
      × (poison_after_panic poison e h ≡ (
          if is_panic_code code
          then poison (record { operation = operation; message = panic_message code }) h
          else h))
unfolding error_for_code poison_after_panic is error_of named_error
error_for_code-is panic_message poison operation (pos n) other h = ground arith
error_for_code-is panic_message poison operation (negsuc n) other h = ground arith
