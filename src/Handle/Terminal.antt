-- ===== src/Handle/Terminal.antt =====
-- `Terminal` of event_queue_handles_gen.go, lines 794-905: a handle with neither children nor
-- callbacks, whose `Close` never fails.
use zigo.Prelude.{
  ℕ, Bool, true, false, not, ◌||◌, Option, none, some, List, [], ◌++◌, String, if◌then◌else◌, ◌==◌,
  inc, dec,
}
use zigo.Errors.{GoError, NativePanicError, handle_error, poisoned}
use zigo.Handle.Common.{Pointer, is_nil, Result, ok, err, Effect, report_leak, deinit_pointer}

pub record Terminal : Type 0 where
  pub ptr : Pointer
  pub active : ℕ  -- int
  pub closed : Bool
  pub poison : Option NativePanicError
  pub cleanup : Option (Option String)

-- `zigoTerminalCleanupState`
pub record CleanupState : Type 0 where
  pub ptr : Pointer
  pub site : Option String

-- `zigoNewTerminal`
unfoldable pub new : Pointer → Option String → Terminal
new ptr site = record { ptr = ptr; active = 0; closed = false; poison = none; cleanup = some site }

-- `zigoCleanupTerminal`
unfoldable pub cleanup : CleanupState → List Effect
cleanup state = report_leak "Terminal" state.site ++ deinit_pointer state.ptr

admit : String → Terminal → Option NativePanicError → Terminal × Result Pointer
admit operation t (some cause) = (t, err (poisoned cause operation))
admit operation t none = (record t { active = inc t.active }, ok t.ptr)

-- `zigoAcquire`, for a receiver that is not nil
unfoldable pub acquire : String → Terminal → Terminal × Result Pointer
unfolding admit
acquire operation t =
    if t.closed || is_nil t.ptr
    then (t, err (handle_error operation))
    else admit operation t t.poison

-- `zigoPoison`
unfoldable pub poison : NativePanicError → Terminal → Terminal
poison cause t = if is_nil t.poison then record t { poison = some cause; cleanup = none } else t

-- `zigoTakeLocked`
unfoldable pub take_locked : Terminal → Terminal × Option CleanupState
take_locked t = if not t.closed || (not (t.active == 0) || is_nil t.ptr) then (t, none) else (
  record t { ptr = none },
  some (record { ptr = if is_nil t.poison then t.ptr else none; site = none }),
)

abbrev pub cleanup_taken : Option CleanupState → List Effect
cleanup_taken none = []
cleanup_taken (some state) = cleanup state

-- `zigoRelease`, for a receiver that is not nil
unfoldable pub release : Terminal → Terminal × List Effect
unfolding take_locked
release t =
    let (t', state) = take_locked (record t { active = dec t.active }) in (t', cleanup_taken state)

-- `Close`, for a receiver that is not nil
unfoldable pub close : Terminal → Terminal × Option GoError × List Effect
unfolding take_locked
close t =
    if t.closed
    then (t, none, [])
    else let (t', state) = take_locked (record t { closed = true; cleanup = none }) in
      (t', none, cleanup_taken state)
