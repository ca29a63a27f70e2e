-- ===== src/Telemetry/Calls.antt =====
-- The text that the methods of `TelemetryHub` share, and the error of a native code
-- (examples/08-telemetry-hub/go/telemetry_hub/telemetry_hub_gen.go, and telemetry_hub_errors_gen.go,
-- lines 175-208). The native side is a parameter: what it returned, with what it left behind the observer.
use zigo.Prelude.{
  ℕ, ◌-◌, ◌≡◌, true, false, ◌&&◌, Option, none, some, List, [], ◌∷◌, String, ◌<>◌, if◌then◌else◌,
  ◌==◌, leb, get_or, arith,
}
use zigo.Prelude.Int.{ℤ, pos, negsuc, ==ℤ, itoa}
use zigo.Errors.{
  GoError, NativePanicError, PanicValue, native_panic_error, zig_error, callback_panic_error,
  callback_error, sentinel, nil_callback, is, is_zig,
}
use zigo.Errors.Classify.{is_panic_code, poison_after_panic}
use zigo.Handle.Common.{Pointer, Result, ok, err, Effect}
use zigo.Methods.{Outcome, returns, fails, panics}
use zigo.Transient.{Calls, new_handle, delete_handle}
use zigo.Transient.Running.{behind}
use zigo.Telemetry as Hub
use zigo.Telemetry.{TelemetryHub, callback_handle}
use text.Mathlib.Text.{◌==◌ as str_eq}

-- `zigoErrorNames`
abbrev pub hub_error_names : List String
hub_error_names =
    "OutOfMemory" ∷ "InvalidName" ∷ "InvalidCapacity" ∷ "NonFinite" ∷ "InvalidRange" ∷ "Disabled"
    ∷ "Full" ∷ "Empty" ∷ "InvalidLimit" ∷ "ObserverPanicked" ∷ "Canceled" ∷ "Cancelled" ∷ []

hub_named : String → ℤ → String → GoError
hub_named operation code name =
    if str_eq name ""
    then zig_error code ("Unknown(" <> itoa code <> ")") operation
    else zig_error code name operation

hub_error_of : String → ℤ → GoError
unfolding hub_named
hub_error_of operation (pos n) =
    if leb 1 n && leb n 12
    then hub_named operation (pos n) (get_or hub_error_names (n - 1) "")
    else zig_error (pos n) ("Unknown(" <> itoa (pos n) <> ")") operation
hub_error_of operation code = zig_error code ("Unknown(" <> itoa code <> ")") operation

-- `zigoErrorForCode`
unfoldable pub hub_error_for_code : (ℤ → String) → String → ℤ → GoError
unfolding hub_error_of
hub_error_for_code panic_message operation code =
    if is_panic_code code
    then native_panic_error (record { operation = operation; message = panic_message code })
    else hub_error_of operation code

pub hub_error_for_code-calm :
    {H : Type 0} (panic_message : ℤ → String) (poison : NativePanicError → H → H)
    (operation : String) (code : ℤ) (h : H)
    → is_panic_code code ≡ false
    → poison_after_panic poison (hub_error_for_code panic_message operation code) h ≡ h
unfolding hub_error_for_code poison_after_panic hub_error_of hub_named
hub_error_for_code-calm panic_message poison operation (pos n) h calm = ground arith
hub_error_for_code-calm panic_message poison operation (negsuc n) h calm = ground arith

pub hub_error_for_code-panic :
    {H : Type 0} (panic_message : ℤ → String) (poison : NativePanicError → H → H)
    (operation : String) (code : ℤ) (h : H)
    → is_panic_code code ≡ true
    → poison_after_panic poison (hub_error_for_code panic_message operation code) h
      ≡ poison (record { operation = operation; message = panic_message code }) h
unfolding hub_error_for_code poison_after_panic
hub_error_for_code-panic panic_message poison operation code h panicked = ground arith

pub hub_error_for_code-cancelled :
    (panic_message : ℤ → String) (operation : String) (code : ℤ)
    → is (hub_error_for_code panic_message operation code) (is_zig (pos 12)) ≡ ==ℤ code (pos 12)
unfolding hub_error_for_code hub_error_of hub_named is
hub_error_for_code-cancelled panic_message operation (pos n) = ground arith
hub_error_for_code-cancelled panic_message operation (negsuc n) = ground arith

-- `pending` is `raw.PendingCallbackPanics()`, `panic` what `raw.TakeCallbackPanic` finds.
pub record HubAnswer (A : Type 0) : Type 0 where
  pub result : A
  pub code : ℤ
  pub pending : ℕ
  pub panic : Option PanicValue

-- How a call ends: the hub, the outcome, and what was called out
abbrev pub HubEnd : Type 0 → Type 0
HubEnd A = TelemetryHub × Outcome A × List Effect

abbrev pub hub_released : {A : Type 0} → Outcome A → TelemetryHub → HubEnd A
hub_released outcome t = let (t', effects) = Hub.release t in (t', outcome, effects)

abbrev pub hub_panic : {A : Type 0} → TelemetryHub → HubAnswer A → Option PanicValue
hub_panic t answer =
    behind (callback_handle 0 t) (if answer.pending == 0 then none else answer.panic)

module _ (panic_message : ℤ → String) where
  -- What follows the native call. `translate` is what the method makes of its own error.
  unfoldable pub hub_answered :
      {A B : Type 0}
      → String
      → (GoError → GoError)
      → (A → B)
      → HubAnswer A
      → TelemetryHub
      → Option PanicValue
      → HubEnd B
  hub_answered operation translate convert answer t (some value) =
      hub_released (panics (callback_panic_error operation value)) t
  hub_answered operation translate convert answer t none =
      let e = hub_error_for_code panic_message operation answer.code in
      if ==ℤ answer.code (pos 0)
      then hub_released (returns (convert answer.result)) t
      else hub_released (fails (translate e)) (poison_after_panic Hub.poison e t)

  -- `acquire` has answered.
  unfoldable pub hub_entered :
      {A B : Type 0}
      → String
      → (GoError → GoError)
      → (Pointer → HubAnswer A)
      → (A → B)
      → TelemetryHub × Result Pointer
      → HubEnd B
  hub_entered operation translate native convert (t, err e) = (t, fails e, [])
  hub_entered operation translate native convert (t, ok ptr) =
      let answer = native ptr in
      hub_answered operation translate convert answer t (hub_panic t answer)

  -- A method that hands its error on
  unfoldable pub hub_call :
      {A B : Type 0} → String → (Pointer → HubAnswer A) → (A → B) → TelemetryHub → HubEnd B
  hub_call operation native convert t =
      hub_entered operation (λ e. e) native convert (Hub.acquire (operation <> " receiver") t)

  -- What follows the native call of `NewTelemetryHub`
  unfoldable pub hub_created :
      ℕ
      → Option String
      → HubAnswer Pointer
      → Calls
      → Option PanicValue
      → Calls × Outcome TelemetryHub
  hub_created handle site answer s (some value) =
      (s, panics (callback_panic_error "NewTelemetryHub" value))
  hub_created handle site answer s none =
      if ==ℤ answer.code (pos 0) then (s, returns (Hub.new answer.result (handle ∷ []) site)) else (
        delete_handle handle s,
        fails (hub_error_for_code panic_message "NewTelemetryHub" answer.code),
      )

  -- `NewTelemetryHub`, of an observer with the handle that `cgo.NewHandle` gives out
  unfoldable pub new_telemetry_hub :
      Option String
      → (String → ℕ → ℕ → ℕ → ℕ → HubAnswer Pointer)
      → String
      → ℕ
      → ℕ
      → ℕ
      → Option ℕ
      → Calls
      → Calls × Outcome TelemetryHub
  new_telemetry_hub site native input_name max_samples initial_mode overflow_policy none s =
      (s, fails (callback_error "NewTelemetryHub" "observer" (sentinel nil_callback)))
  new_telemetry_hub site native input_name max_samples initial_mode overflow_policy (some handle)
        s =
      let answer = native input_name max_samples initial_mode overflow_policy handle in
      hub_created handle site answer (new_handle s)
        (behind handle (if answer.pending == 0 then none else answer.panic))
