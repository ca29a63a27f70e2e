-- ===== src/Handle/EventQueue.antt =====
-- `EventQueue` of event_queue_handles_gen.go, lines 17-213: a root handle, which the caller owns,
-- with dependent children and callback slots.
pub mod Calls
pub mod Concurrent
use zigo.Prelude.{
  ℕ, Bool, true, false, not, ◌||◌, Option, none, some, List, [], ◌∷◌, ◌++◌, String, if◌then◌else◌,
  ◌==◌, get_or, set, inc, dec,
}
use zigo.Errors.{GoError, NativePanicError, handle_error, handle_in_use_error, poisoned}
use zigo.Handle.Common.{
  Pointer, is_nil, Result, ok, err, Effect, report_leak, delete_callback_handles, deinit_pointer,
}

-- `cleanup` is the registration with the garbage collector, and holds what it was given and the
-- handle's own fields do not show: the leak site. `Stop` clears it. The slice of callback handles that
-- it captured is the handle's own slice, so a slot that is replaced is replaced for both.
-- The mutex is not a field: see Handle. `zigoScratchStats` is in Handle.Scratch.
pub record EventQueue : Type 0 where
  pub ptr : Pointer
  pub active : ℕ  -- int
  pub children : ℕ  -- int
  pub closed : Bool
  pub poison : Option NativePanicError
  pub callback_handles : List ℕ
  pub cleanup : Option (Option String)

-- `zigoEventQueueCleanupState`
pub record CleanupState : Type 0 where
  pub ptr : Pointer
  pub callback_handles : List ℕ
  pub site : Option String

-- `zigoNewEventQueue`
unfoldable pub new : Pointer → List ℕ → Option String → EventQueue
new ptr callback_handles site = record {
  ptr = ptr;
  active = 0;
  children = 0;
  closed = false;
  poison = none;
  callback_handles = callback_handles;
  cleanup = some site;
}

-- `zigoCleanupEventQueue`
unfoldable pub cleanup : CleanupState → List Effect
cleanup state =
    report_leak "EventQueue" state.site
    ++ (deinit_pointer state.ptr ++ delete_callback_handles state.callback_handles)

-- `zigoCallbackHandle`. The callers pass slots below 3, the length of the slice of an open handle;
-- an index out of range panics in Go, and gives 0 here.
unfoldable pub callback_handle : EventQueue → ℕ → ℕ
callback_handle e slot = get_or e.callback_handles slot 0

-- `zigoReplaceCallbackHandle`
unfoldable pub replace_callback_handle : EventQueue → ℕ → ℕ → EventQueue × ℕ
replace_callback_handle e slot handle = (
  record e { callback_handles = set e.callback_handles slot handle },
  get_or e.callback_handles slot 0,
)

-- `e.closed || e.ptr == nil`, the test that all methods begin with
abbrev pub is_gone : EventQueue → Bool
is_gone e = e.closed || is_nil e.ptr

admit : String → EventQueue → EventQueue → Option NativePanicError → EventQueue × Result Pointer
admit operation e e' (some cause) = (e, err (poisoned cause operation))
admit operation e e' none = (e', ok e.ptr)

-- `zigoAcquire`, for a receiver that is not nil
unfoldable pub acquire : String → EventQueue → EventQueue × Result Pointer
unfolding admit
acquire operation e =
    if is_gone e
    then (e, err (handle_error operation))
    else admit operation e (record e { active = inc e.active }) e.poison

-- `zigoAcquireChild`; the reservation that it returns beside the pointer is the handle itself
unfoldable pub acquire_child : String → EventQueue → EventQueue × Result Pointer
unfolding admit
acquire_child operation e =
    if is_gone e
    then (e, err (handle_error operation))
    else admit operation e (record e { active = inc e.active; children = inc e.children }) e.poison

-- `zigoDropChild`
unfoldable pub drop_child : EventQueue → EventQueue
drop_child e = record e { children = dec e.children }

-- `zigoPoison`
unfoldable pub poison : NativePanicError → EventQueue → EventQueue
poison cause e = if is_nil e.poison then record e { poison = some cause; cleanup = none } else e

-- `zigoTakeLocked`
unfoldable pub take_locked : EventQueue → EventQueue × Option CleanupState
take_locked e = if not e.closed || (not (e.active == 0) || is_nil e.ptr) then (e, none) else (
  record e { ptr = none; callback_handles = [] },
  some (record {
    ptr = if is_nil e.poison then e.ptr else none;
    callback_handles = e.callback_handles;
    site = none;
  }),
)

abbrev pub cleanup_taken : Option CleanupState → List Effect
cleanup_taken none = []
cleanup_taken (some state) = cleanup state

-- `zigoRelease`, for a receiver that is not nil. The effects are what is called after `Unlock`.
unfoldable pub release : EventQueue → EventQueue × List Effect
unfolding take_locked
release e =
    let (e', state) = take_locked (record e { active = dec e.active }) in (e', cleanup_taken state)

-- `Close`, for a receiver that is not nil
unfoldable pub close : EventQueue → EventQueue × Option GoError × List Effect
unfolding take_locked
close e =
    if e.closed
    then (e, none, [])
    else if not (e.children == 0)
    then (e, some (handle_in_use_error "EventQueue.Close" e.children), [])
    else let (e', state) = take_locked (record e { closed = true; cleanup = none }) in
      (e', none, cleanup_taken state)

-- The garbage collector found `e` unreachable: it runs the registered cleanup, once.
unfoldable pub collect : EventQueue → EventQueue × List Effect
collect e = elim e.cleanup [
  | none ↦ (e, [])
  | some site ↦ (
    record e { cleanup = none },
    cleanup (record { ptr = e.ptr; callback_handles = e.callback_handles; site = site }),
  )
]
