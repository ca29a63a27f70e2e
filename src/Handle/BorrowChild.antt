-- ===== src/Handle/BorrowChild.antt =====
-- `BorrowChild` of event_queue_handles_gen.go, lines 655-797: a handle that a view makes and that holds
-- a reservation on the view's ultimate owner. A call on it pins that owner first; its cleanup gives the
-- reservation back.
-- The parent is another object, so a method takes and returns the state of both. `linked` says that
-- the field `parent` is not nil; which parent it is never changes.
use zigo.Prelude.{
  ℕ, Bool, true, false, not, ◌||◌, Option, none, some, List, [], ◌++◌, String, if◌then◌else◌, ◌==◌,
  inc, dec,
}
use zigo.Errors.{NativePanicError, handle_error, poisoned}
use zigo.Handle.Common.{Pointer, is_nil, Result, ok, err, Effect, report_leak, deinit_pointer}
use zigo.Handle.Parent.{Parent}

pub record BorrowChild : Type 0 where
  pub ptr : Pointer
  pub active : ℕ  -- int
  pub closed : Bool
  pub poison : Option NativePanicError
  pub linked : Bool
  pub cleanup : Option (Option String)

-- `zigoBorrowChildCleanupState`
pub record CleanupState : Type 0 where
  pub ptr : Pointer
  pub linked : Bool
  pub site : Option String

-- `zigoNewBorrowChild`, with a parent that is not nil
unfoldable pub new : Pointer → Option String → BorrowChild
new ptr site = record {
  ptr = ptr;
  active = 0;
  closed = false;
  poison = none;
  linked = true;
  cleanup = some site;
}

-- The second critical section of `zigoAcquire`
unfoldable pub pin : String → BorrowChild → BorrowChild × Result Pointer
pin operation s =
    if s.closed || is_nil s.ptr then (s, err (handle_error operation)) else elim s.poison [
      | some cause ↦ (s, err (poisoned cause operation))
      | none ↦ (record s { active = inc s.active }, ok s.ptr)
    ]

-- `zigoTakeLocked`
unfoldable pub take_locked : BorrowChild → BorrowChild × Option CleanupState
take_locked s = if not s.closed || (not (s.active == 0) || is_nil s.ptr) then (s, none) else (
  record s { ptr = none; linked = false },
  some (record { ptr = if is_nil s.poison then s.ptr else none; linked = s.linked; site = none }),
)

-- The critical section of `zigoPoison`
unfoldable pub mark : NativePanicError → BorrowChild → BorrowChild
mark cause s = if is_nil s.poison then record s { poison = some cause; cleanup = none } else s

module _ {P : Type 0} (parent : Parent P) where
  -- `zigoCleanupBorrowChild`
  unfoldable pub cleanup : CleanupState → P → P × List Effect
  cleanup state p = (
    if state.linked then parent.drop_child p else p,
    report_leak "BorrowChild" state.site ++ deinit_pointer state.ptr,
  )

  abbrev pub cleanup_taken : Option CleanupState → P → P × List Effect
  cleanup_taken none p = (p, [])
  cleanup_taken (some state) p = cleanup state p

  abbrev pub release_parent : Bool → P → P × List Effect
  release_parent linked p = if linked then parent.release p else (p, [])

  -- What follows `Unlock` in `zigoAcquire`: the parent is let go if the child was refused.
  settle :
      Bool → P → BorrowChild × Result Pointer → (BorrowChild × P) × Result Pointer × List Effect
  settle linked p (s, err x) =
      let (p', effects) = release_parent linked p in ((s, p'), err x, effects)
  settle linked p (s, ok ptr) = ((s, p), ok ptr, [])

  -- The parent has answered: its error ends the call, and nothing is pinned.
  pin_after :
      String
      → BorrowChild
      → Bool
      → P × Result Pointer
      → (BorrowChild × P) × Result Pointer × List Effect
  unfolding settle
  pin_after operation s linked (p, err x) = ((s, p), err x, [])
  pin_after operation s linked (p, ok _) = settle linked p (pin operation s)

  -- `zigoAcquire`, for a receiver that is not nil
  unfoldable pub acquire :
      String → BorrowChild → P → (BorrowChild × P) × Result Pointer × List Effect
  unfolding pin_after settle
  acquire operation s p =
      if s.linked
      then pin_after operation s true (parent.acquire operation p)
      else settle false p (pin operation s)

  -- `zigoRelease`, for a receiver that is not nil
  unfoldable pub release : BorrowChild → P → (BorrowChild × P) × List Effect
  release s p =
      let (s', state) = take_locked (record s { active = dec s.active }) in
      let (p', cleaned) = cleanup_taken state p in
      let (p'', released) = release_parent s.linked p' in ((s', p''), cleaned ++ released)

  -- `zigoPoison`, for a receiver that is not nil
  unfoldable pub poison : NativePanicError → BorrowChild → P → BorrowChild × P
  poison cause s p = (mark cause s, if s.linked then parent.poison cause p else p)

  -- `Close`, for a receiver that is not nil; the error is always nil
  unfoldable pub close : BorrowChild → P → (BorrowChild × P) × List Effect
  close s p =
      if s.closed
      then ((s, p), [])
      else let (s', state) = take_locked (record s { closed = true; cleanup = none }) in
        let (p', cleaned) = cleanup_taken state p in ((s', p'), cleaned)
