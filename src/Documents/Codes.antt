-- ===== src/Documents/Codes.antt =====
-- The error of a native code in the streams package
-- (examples/11-io-streams/go/streams/streams_errors_gen.go).
use zigo.Prelude.{
  ◌≡◌, false, arith, ◌-◌, ◌&&◌, List, [], ◌∷◌, String, ◌<>◌, if◌then◌else◌, leb, get_or,
}
use zigo.Prelude.Int.{ℤ, pos, negsuc, itoa}
use zigo.Errors.{GoError, NativePanicError, native_panic_error, zig_error}
use zigo.Errors.Classify.{is_panic_code, poison_after_panic}
use text.Mathlib.Text.{◌==◌ as str_eq}

-- `zigoErrorNames`
abbrev pub stream_error_names : List String
stream_error_names = "OutOfMemory" ∷ "WriteFailed" ∷ "ReadFailed" ∷ "TooLarge" ∷ []

stream_named : String → ℤ → String → GoError
stream_named operation code name =
    if str_eq name ""
    then zig_error code ("Unknown(" <> itoa code <> ")") operation
    else zig_error code name operation

stream_error_of : String → ℤ → GoError
unfolding stream_named
stream_error_of operation (pos n) =
    if leb 1 n && leb n 4
    then stream_named operation (pos n) (get_or stream_error_names (n - 1) "")
    else zig_error (pos n) ("Unknown(" <> itoa (pos n) <> ")") operation
stream_error_of operation code = zig_error code ("Unknown(" <> itoa code <> ")") operation

-- `zigoErrorForCode`
unfoldable pub stream_error_for_code : (ℤ → String) → String → ℤ → GoError
unfolding stream_error_of
stream_error_for_code panic_message operation code =
    if is_panic_code code
    then native_panic_error (record { operation = operation; message = panic_message code })
    else stream_error_of operation code

pub stream_error_for_code-calm :
    {H : Type 0} (panic_message : ℤ → String) (poison : NativePanicError → H → H)
    (operation : String) (code : ℤ) (h : H)
    → is_panic_code code ≡ false
    → poison_after_panic poison (stream_error_for_code panic_message operation code) h ≡ h
unfolding stream_error_for_code poison_after_panic stream_error_of stream_named
stream_error_for_code-calm panic_message poison operation (pos n) h calm = ground arith
stream_error_for_code-calm panic_message poison operation (negsuc n) h calm = ground arith
