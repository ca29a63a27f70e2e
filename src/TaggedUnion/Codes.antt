-- ===== src/TaggedUnion/Codes.antt =====
-- The error of a native code, in the package of the tagged unions
-- (examples/10-tagged-union/go/tagged_union/tagged_union_errors_gen.go, lines 168-200).
use zigo.Prelude.{
  ◌-◌, ◌≡◌, false, ◌&&◌, List, [], ◌∷◌, String, ◌<>◌, if◌then◌else◌, leb, get_or, arith,
}
use zigo.Prelude.Int.{ℤ, pos, negsuc, ==ℤ, itoa}
use zigo.Errors.{GoError, NativePanicError, native_panic_error, zig_error}
use zigo.Errors.Classify.{is_panic_code, poison_after_panic}
use text.Mathlib.Text.{◌==◌ as str_eq}

-- `zigoErrorNames`
abbrev pub union_error_names : List String
union_error_names = "OutOfMemory" ∷ "DivideByZero" ∷ "Never" ∷ "Invalid" ∷ []

named_or_unknown : String → ℤ → String → GoError
named_or_unknown operation code name =
    if str_eq name ""
    then zig_error code ("Unknown(" <> itoa code <> ")") operation
    else zig_error code name operation

union_error_of : String → ℤ → GoError
unfolding named_or_unknown
union_error_of operation (pos n) =
    if leb 1 n && leb n 4
    then named_or_unknown operation (pos n) (get_or union_error_names (n - 1) "")
    else zig_error (pos n) ("Unknown(" <> itoa (pos n) <> ")") operation
union_error_of operation code = zig_error code ("Unknown(" <> itoa code <> ")") operation

-- `zigoErrorForCode`; -3 is `negsuc 2`.
unfoldable pub union_error_for_code : (ℤ → String) → String → ℤ → GoError
unfolding union_error_of
union_error_for_code panic_message operation code =
    if is_panic_code code
    then native_panic_error (record { operation = operation; message = panic_message code })
    else if ==ℤ code (negsuc 2)
    then zig_error code "OmittedVariant" operation
    else union_error_of operation code

-- A code above -256 poisons nothing.
pub union_error_for_code-calm :
    {H : Type 0} (panic_message : ℤ → String) (poison : NativePanicError → H → H)
    (operation : String) (code : ℤ) (h : H)
    → is_panic_code code ≡ false
    → poison_after_panic poison (union_error_for_code panic_message operation code) h ≡ h
unfolding union_error_for_code poison_after_panic union_error_of named_or_unknown
union_error_for_code-calm panic_message poison operation (pos n) h calm = ground arith
union_error_for_code-calm panic_message poison operation (negsuc n) h calm = ground arith
