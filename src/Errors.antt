-- ===== src/Errors.antt =====
-- The error values of the generated runtime
-- (examples/07-event-queue/go/internal/lifecycle/lifecycle_gen.go, lines 14-24 and 148-245), and
-- what `errors.Is` sees in them.
-- An error is told from another by its type and fields; the values of `errors.New`, whose identity is
-- their address, are the constructors of `Sentinel`.
pub mod Classify
use zigo.Prelude.{ℕ, Bool, true, false, ◌||◌, Option, none, some, String, ◌<>◌, if◌then◌else◌, ◌==◌}
use zigo.Prelude.Int.{ℤ, ==ℤ}
use text.Mathlib.Text.{◌==◌ as str_eq}

pub data Sentinel : Type 0 where
  invalid_handle : Sentinel
  handle_in_use : Sentinel
  native_panic : Sentinel
  native_status : Sentinel
  callback_panic : Sentinel
  callback_failed : Sentinel
  out_of_range : Sentinel
  nil_callback : Sentinel
  nil_stream : Sentinel
  -- a package variable that the runtime does not declare: `io.EOF`, or one of the caller's
  other : ℕ → Sentinel

pub record NativePanicError : Type 0 where
  pub operation : String
  pub message : String

mutual
  pub data GoError : Type 0 where
    sentinel : Sentinel → GoError
    handle_error : String → GoError
    handle_in_use_error : String → ℕ → GoError
    native_panic_error : NativePanicError → GoError
    range_error : String → String → String → GoError
    stream_error : String → String → GoError → GoError
    callback_error : String → String → GoError → GoError
    status_error : String → ℤ → GoError
    callback_panic_error : String → PanicValue → GoError
    zig_error : ℤ → String → String → GoError
    -- what `errors.Join` returns for one error or more
    join_error : Errors → GoError

  -- the value of a panic, an `any`
  pub data PanicValue : Type 0 where
    panic_error : GoError → PanicValue
    panic_value : ℕ → PanicValue

  pub data Errors : Type 0 where
    nil : Errors
    cons : GoError → Errors → Errors

-- `Poisoned`
unfoldable pub poisoned : NativePanicError → String → GoError
poisoned err operation = native_panic_error (record {
  operation = operation;
  message =
      ("handle unusable after a native panic in " <> err.operation)
      <> (if str_eq err.message "" then "" else ": " <> err.message);
})

-- What a call asks `errors.Is` for: a sentinel, or one of the package's `*Error` values.
pub data Target : Type 0 where
  is_sentinel : Sentinel → Target
  is_zig : ℤ → Target

abbrev same_sentinel : Sentinel → Sentinel → Bool
same_sentinel invalid_handle invalid_handle = true
same_sentinel handle_in_use handle_in_use = true
same_sentinel native_panic native_panic = true
same_sentinel native_status native_status = true
same_sentinel callback_panic callback_panic = true
same_sentinel callback_failed callback_failed = true
same_sentinel out_of_range out_of_range = true
same_sentinel nil_callback nil_callback = true
same_sentinel nil_stream nil_stream = true
same_sentinel (other a) (other b) = a == b
same_sentinel _ _ = false

abbrev matches_sentinel : Sentinel → Target → Bool
matches_sentinel s (is_sentinel t) = same_sentinel s t
matches_sentinel s (is_zig code) = false

-- `(*Error).Is`: the codes agree. The sentinel `*Error` values of a package differ in their codes,
-- so identity adds nothing to it.
abbrev matches_code : ℤ → Target → Bool
matches_code code (is_sentinel t) = false
matches_code code (is_zig code') = ==ℤ code code'

-- `errors.Is`: the error itself or its `Is` method, and then whatever it unwraps to.
unfoldable mutual
  pub is : GoError → Target → Bool
  is (sentinel s) t = matches_sentinel s t
  is (handle_error op) t = matches_sentinel invalid_handle t
  is (handle_in_use_error op children) t = matches_sentinel handle_in_use t
  is (native_panic_error e) t = matches_sentinel native_panic t
  is (range_error op parameter type) t = matches_sentinel out_of_range t
  is (stream_error op parameter e) t = is e t
  is (callback_error op callback e) t = matches_sentinel callback_failed t || is e t
  is (status_error op status) t = matches_sentinel native_status t
  is (callback_panic_error op value) t = matches_sentinel callback_panic t || is_value value t
  is (zig_error code name op) t = matches_code code t
  is (join_error es) t = is_any es t

  pub is_value : PanicValue → Target → Bool
  is_value (panic_error e) t = is e t
  is_value (panic_value v) t = false

  pub is_any : Errors → Target → Bool
  is_any nil t = false
  is_any (cons e es) t = is e t || is_any es t
