-- ===== src/Transient.antt =====
-- The free functions of examples/04-callback/go/callback_gen.go, lines 224-345 and 381-398: each makes a
-- handle for the callback that it is given, for the time of one native call; and the cancellation of
-- such a call by a context (with callback_cgo_gen.go, lines 53-63, and callback_errors_gen.go, 175-185).
-- A function runs with nobody else at its callback. The native side is a parameter: what it returned,
-- with what it left behind the callback's handle.
pub mod Buffers
pub mod Restoring
pub mod Trampolines
pub mod Contexts
pub mod Running
use zigo.Prelude.{
  ℕ, ◌-◌, Bool, true, false, not, ◌&&◌, Option, none, some, String, ◌<>◌, if◌then◌else◌, ◌==◌, inc,
  dec,
}
use zigo.Prelude.Int.{ℤ, pos, negsuc, ==ℤ, itoa}
use zigo.Errors.{
  GoError, PanicValue, callback_error, callback_panic_error, native_panic_error, sentinel,
  nil_callback, zig_error, is, is_zig,
}
use zigo.Errors.Classify.{is_panic_code}
use zigo.Handle.Common.{is_nil}
use zigo.Methods.{Outcome, returns, fails, panics}

-- `active` is `zigoActiveCallbackHandles`, `cancels` says which handles have a flag in
-- `callbackCancelFlags`, and `watches` counts the functions that wait for a context to end.
pub record Calls : Type 0 where
  pub active : ℕ  -- atomic.Int64
  pub cancels : ℕ → Bool
  pub watches : ℕ

-- `pending` is `zigoRawPendingCallbackPanics()`; `panic` and `failure` are what
-- `zigoRawTakeCallbackPanic` and `zigoRawTakeCallbackError` find behind the handle.
pub record Ran (A : Type 0) : Type 0 where
  pub result : A
  pub code : ℤ
  pub pending : ℕ
  pub panic : Option PanicValue
  pub failure : Option GoError

-- What `ctx.Err()` answers before the native call, and after it
pub record Context : Type 0 where
  pub before : Option GoError
  pub after : Option GoError

-- `zigoErrorForCode` of the package
unfoldable pub error_for_code : (ℤ → String) → String → ℤ → GoError
error_for_code panic_message operation code =
    if is_panic_code code
    then native_panic_error (record { operation = operation; message = panic_message code })
    else if ==ℤ code (pos 1)
    then zig_error code "OutOfMemory" operation
    else if ==ℤ code (pos 2)
    then zig_error code "Canceled" operation
    else zig_error code ("Unknown(" <> itoa code <> ")") operation

-- `zigoNewXHandle` of a handle that `cgo.NewHandle` gave out, and `zigoDeleteCallbackHandle`
abbrev pub new_handle : Calls → Calls
new_handle s = record s { active = inc s.active }

unfoldable pub delete_handle : ℕ → Calls → Calls
delete_handle handle s = if handle == 0 then s else record s { active = dec s.active }

-- `setCallbackCancel`
unfoldable pub set_cancel : ℕ → Bool → Calls → Calls
set_cancel handle flag s = record s { cancels = λ j. if handle == j then flag else s.cancels j }

abbrev pub raised : {A : Type 0} → Ran A → Option PanicValue
raised ran = if ran.pending == 0 then none else ran.panic

-- The functions without an error result: a nil callback is a panic.
unfoldable pub visited :
    {A B : Type 0} → String → (A → B) → Ran A → Calls → Option PanicValue → Calls × Outcome B
visited operation convert ran s (some value) = (s, panics (callback_panic_error operation value))
visited operation convert ran s none = (s, returns (convert ran.result))

unfoldable pub visit :
    {A B : Type 0} → String → String → (A → B) → Ran A → Option ℕ → Calls → Calls × Outcome B
visit operation callback convert ran none s =
    (s, panics (callback_error operation callback (sentinel nil_callback)))
visit operation callback convert ran (some handle) s =
    visited operation convert ran (delete_handle handle (new_handle s)) (raised ran)

-- `Notify`
abbrev pub notify : Ran (Unit {0}) → Option ℕ → Calls → Calls × Outcome (Unit {0})
notify = visit "Notify" "callback" (λ u. u)

-- `Filter`
abbrev pub filter : Ran ℕ → Option ℕ → Calls → Calls × Outcome Bool
filter = visit "Filter" "predicate" (λ result. not (result == 0))

-- `Reduce`
abbrev pub reduce : Ran ℤ → Option ℕ → Calls → Calls × Outcome ℤ
reduce = visit "Reduce" "reducer" (λ result. result)

-- `LogMessage`
abbrev pub log_message : Ran (Unit {0}) → Option ℕ → Calls → Calls × Outcome (Unit {0})
log_message = visit "LogMessage" "logger" (λ u. u)

-- `EmitChunks`
abbrev pub emit_chunks : Ran ℕ → Option ℕ → Calls → Calls × Outcome ℕ
emit_chunks = visit "EmitChunks" "sink" (λ result. result)

-- `VisitCodepoints`, whose result is a code point as a uint32
abbrev pub visit_codepoints : Ran ℕ → Option ℕ → Calls → Calls × Outcome ℕ
visit_codepoints = visit "VisitCodepoints" "visitor" (λ result. result)

-- `Apply`
unfoldable pub applied : Ran ℤ → Calls → Option PanicValue → Option GoError → Calls × Outcome ℤ
applied ran s (some value) failure = (s, panics (callback_panic_error "Apply" value))
applied ran s none (some e) = (s, fails (callback_error "Apply" "callback" e))
applied ran s none none = (s, returns ran.result)

unfoldable pub apply : Ran ℤ → Option ℕ → Calls → Calls × Outcome ℤ
apply ran none s = (s, fails (callback_error "Apply" "callback" (sentinel nil_callback)))
apply ran (some handle) s =
    applied ran (delete_handle handle (new_handle s)) (raised ran) ran.failure

-- `context.AfterFunc` and its stop, if the context is not done when the call begins
unfoldable pub watch : Context → Calls → Calls
watch ctx s = if is_nil ctx.before then record s { watches = inc s.watches } else s

unfoldable pub stop : Context → Calls → Calls
stop ctx s = if is_nil ctx.before then record s { watches = dec s.watches } else s

-- The error of a call that ended with a code other than 0
unfoldable pub cancelled : GoError → Option GoError → GoError
cancelled e none = e
cancelled e (some ended) = if is e (is_zig (pos 2)) then ended else e

module _ (panic_message : ℤ → String) where
  unfoldable pub until_cancelled :
      Context → Ran ℕ → Calls → Option PanicValue → Option GoError → Calls × Outcome ℕ
  until_cancelled ctx ran s (some value) failure =
      (s, panics (callback_panic_error "ApplyUntilCancelled" value))
  until_cancelled ctx ran s none (some e) =
      (s, fails (callback_error "ApplyUntilCancelled" "callback" e))
  until_cancelled ctx ran s none none = if ==ℤ ran.code (pos 0) then (s, returns ran.result) else (
    s,
    fails (cancelled (error_for_code panic_message "ApplyUntilCancelled" ran.code) ctx.after),
  )

  -- `ApplyUntilCancelled`. The native side is told whether the flag is set when it begins. The deferred
  -- calls run the last first.
  unfoldable pub apply_until_cancelled :
      Context → (Bool → Ran ℕ) → Option ℕ → Calls → Calls × Outcome ℕ
  apply_until_cancelled ctx native none s = (
    stop ctx (watch ctx s),
    fails (callback_error "ApplyUntilCancelled" "callback" (sentinel nil_callback)),
  )
  apply_until_cancelled ctx native (some handle) s =
      let ran = native (not (is_nil ctx.before)) in
      let entered = set_cancel handle true (new_handle (watch ctx s)) in
      until_cancelled ctx ran (stop ctx (delete_handle handle (set_cancel handle false entered)))
        (raised ran) ran.failure
