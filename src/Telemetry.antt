-- ===== src/Telemetry.antt =====
-- The handle `TelemetryHub`, which owns the callback of its observer
-- (examples/08-telemetry-hub/go/telemetry_hub/telemetry_hub_handles_gen.go).
pub mod Calls
pub mod Creating
pub mod Controls
pub mod Readings
pub mod Reducing
pub mod Restoring
use zigo.Prelude.{
  ℕ, ◌+◌, ◌<◌, ◌≡◌, Bool, true, false, not, ◌||◌, Option, none, some, List, [], ◌∷◌, ◌++◌, String,
  if◌then◌else◌, ◌==◌, inc, dec, get_or, set, word, arith,
}
use zigo.Errors.{GoError, NativePanicError, handle_error, poisoned}
use zigo.Handle.Common.{
  Pointer, is_nil, Result, ok, err, Effect, report_leak, deinit_pointer, delete_callback_handles,
}
use zigo.Handle.Lifecycle.{Lifecycle, Laws}

pub record TelemetryHub : Type 0 where
  pub ptr : Pointer
  pub active : ℕ  -- int
  pub closed : Bool
  pub poison : Option NativePanicError
  pub callback_handles : List ℕ
  pub cleanup : Option (Option String)

-- `zigoTelemetryHubCleanupState`
pub record CleanupState : Type 0 where
  pub ptr : Pointer
  pub callback_handles : List ℕ
  pub site : Option String

-- `zigoNewTelemetryHub`
unfoldable pub new : Pointer → List ℕ → Option String → TelemetryHub
new ptr callback_handles site = record {
  ptr = ptr;
  active = 0;
  closed = false;
  poison = none;
  callback_handles = callback_handles;
  cleanup = some site;
}

-- `zigoCallbackHandle`, for a slot that is there
abbrev pub callback_handle : ℕ → TelemetryHub → ℕ
callback_handle slot t = get_or t.callback_handles slot 0

-- `zigoReplaceCallbackHandle`, for a slot that is there
unfoldable pub replace_callback_handle : ℕ → ℕ → TelemetryHub → TelemetryHub × ℕ
replace_callback_handle slot handle t =
    (record t { callback_handles = set t.callback_handles slot handle }, callback_handle slot t)

-- `zigoCleanupTelemetryHub`
unfoldable pub cleanup : CleanupState → List Effect
cleanup state =
    report_leak "TelemetryHub" state.site
    ++ (deinit_pointer state.ptr ++ delete_callback_handles state.callback_handles)

-- `zigoTakeLocked`
unfoldable pub take_locked : TelemetryHub → TelemetryHub × Option CleanupState
take_locked t = if not t.closed || (not (t.active == 0) || is_nil t.ptr) then (t, none) else (
  record t { ptr = none; callback_handles = [] },
  some (record {
    ptr = if is_nil t.poison then t.ptr else none;
    callback_handles = t.callback_handles;
    site = none;
  }),
)

abbrev pub cleanup_taken : Option CleanupState → List Effect
cleanup_taken none = []
cleanup_taken (some state) = cleanup state

admit : String → TelemetryHub → Option NativePanicError → TelemetryHub × Result Pointer
admit operation t (some cause) = (t, err (poisoned cause operation))
admit operation t none = (record t { active = inc t.active }, ok t.ptr)

-- `zigoAcquire`, for a receiver that is not nil
unfoldable pub acquire : String → TelemetryHub → TelemetryHub × Result Pointer
unfolding admit
acquire operation t =
    if t.closed || is_nil t.ptr
    then (t, err (handle_error operation))
    else admit operation t t.poison

-- `zigoRelease`, for a receiver that is not nil
unfoldable pub release : TelemetryHub → TelemetryHub × List Effect
unfolding take_locked
release t =
    let (t', state) = take_locked (record t { active = dec t.active }) in (t', cleanup_taken state)

-- `zigoPoison`, for a receiver that is not nil
unfoldable pub poison : NativePanicError → TelemetryHub → TelemetryHub
poison cause t = if is_nil t.poison then record t { poison = some cause; cleanup = none } else t

-- `Close`, for a receiver that is not nil
unfoldable pub close : TelemetryHub → TelemetryHub × Option GoError × List Effect
unfolding take_locked
close t =
    if t.closed
    then (t, none, [])
    else let (t', state) = take_locked (record t { closed = true; cleanup = none }) in
      (t', none, cleanup_taken state)

-- The handle as a `zigoHandle`
abbrev pub hub : Lifecycle TelemetryHub
hub = record {
  acquire = λ operation t. let (t', answer) = acquire operation t in (t', answer, []);
  release = release;
  poison = poison;
}

pub hub_laws : Laws hub (λ t. t.active + 1 < word)
unfolding acquire release
hub_laws = record { undoable = λ operation t room. ground arith }
