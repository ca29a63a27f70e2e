-- ===== src/Handle/BorrowBox.antt =====
-- `BorrowBox` of event_queue_handles_gen.go, lines 344-497: a root handle whose views borrow from it.
-- Its `Close` is refused while a call is inside, since a view's memory would go with it.
pub mod Calls
use zigo.Prelude.{
  ℕ, Bool, true, false, not, ◌||◌, Option, none, some, List, [], ◌++◌, String, if◌then◌else◌, ◌==◌,
  inc, dec,
}
use zigo.Errors.{GoError, NativePanicError, handle_error, handle_in_use_error, poisoned}
use zigo.Handle.Common.{Pointer, is_nil, Result, ok, err, Effect, report_leak, deinit_pointer}

pub record BorrowBox : Type 0 where
  pub ptr : Pointer
  pub active : ℕ  -- int
  pub children : ℕ  -- int
  pub closed : Bool
  pub poison : Option NativePanicError
  pub cleanup : Option (Option String)

-- `zigoBorrowBoxCleanupState`
pub record CleanupState : Type 0 where
  pub ptr : Pointer
  pub site : Option String

-- `zigoNewBorrowBox`
unfoldable pub new : Pointer → Option String → BorrowBox
new ptr site = record {
  ptr = ptr;
  active = 0;
  children = 0;
  closed = false;
  poison = none;
  cleanup = some site;
}

-- `zigoCleanupBorrowBox`
unfoldable pub cleanup : CleanupState → List Effect
cleanup state = report_leak "BorrowBox" state.site ++ deinit_pointer state.ptr

admit : String → BorrowBox → BorrowBox → Option NativePanicError → BorrowBox × Result Pointer
admit operation b b' (some cause) = (b, err (poisoned cause operation))
admit operation b b' none = (b', ok b.ptr)

-- `zigoAcquire`, for a receiver that is not nil
unfoldable pub acquire : String → BorrowBox → BorrowBox × Result Pointer
unfolding admit
acquire operation b =
    if b.closed || is_nil b.ptr
    then (b, err (handle_error operation))
    else admit operation b (record b { active = inc b.active }) b.poison

-- `zigoAcquireChild`; the reservation is the handle itself
unfoldable pub acquire_child : String → BorrowBox → BorrowBox × Result Pointer
unfolding admit
acquire_child operation b =
    if b.closed || is_nil b.ptr
    then (b, err (handle_error operation))
    else admit operation b (record b { active = inc b.active; children = inc b.children }) b.poison

-- `zigoDropChild`
unfoldable pub drop_child : BorrowBox → BorrowBox
drop_child b = record b { children = dec b.children }

-- `zigoPoison`
unfoldable pub poison : NativePanicError → BorrowBox → BorrowBox
poison cause b = if is_nil b.poison then record b { poison = some cause; cleanup = none } else b

-- `zigoTakeLocked`
unfoldable pub take_locked : BorrowBox → BorrowBox × Option CleanupState
take_locked b = if not b.closed || (not (b.active == 0) || is_nil b.ptr) then (b, none) else (
  record b { ptr = none },
  some (record { ptr = if is_nil b.poison then b.ptr else none; site = none }),
)

abbrev pub cleanup_taken : Option CleanupState → List Effect
cleanup_taken none = []
cleanup_taken (some state) = cleanup state

-- `zigoRelease`, for a receiver that is not nil
unfoldable pub release : BorrowBox → BorrowBox × List Effect
unfolding take_locked
release b =
    let (b', state) = take_locked (record b { active = dec b.active }) in (b', cleanup_taken state)

-- `Close`, for a receiver that is not nil
unfoldable pub close : BorrowBox → BorrowBox × Option GoError × List Effect
unfolding take_locked
close b =
    if b.closed
    then (b, none, [])
    else if not (b.children == 0)
    then (b, some (handle_in_use_error "BorrowBox.Close" b.children), [])
    else if not (b.active == 0)
    then (b, some (handle_in_use_error "BorrowBox.Close" b.active), [])
    else let (b', state) = take_locked (record b { closed = true; cleanup = none }) in
      (b', none, cleanup_taken state)
