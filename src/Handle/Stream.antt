-- ===== src/Handle/Stream.antt =====
-- `Stream` of event_queue_handles_gen.go, lines 215-342: a handle that depends on another one. A call
-- on it pins the parent first; its cleanup gives the parent's reservation back. (`BorrowChild` of the
-- same file is generated from the same text.)
-- The parent is another object, so a method takes and returns the state of both. `linked` says that
-- the field `parent` is not nil; which parent it is never changes.
pub mod Calls
use zigo.Prelude.{
  ℕ, Bool, true, false, not, ◌||◌, Option, none, some, List, [], ◌++◌, String, if◌then◌else◌, ◌==◌,
  inc, dec,
}
use zigo.Errors.{GoError, NativePanicError, handle_error, poisoned}
use zigo.Handle.Common.{Pointer, is_nil, Result, ok, err, Effect, report_leak, deinit_pointer}
use zigo.Handle.Parent.{Parent}

pub record Stream : Type 0 where
  pub ptr : Pointer
  pub active : ℕ  -- int
  pub closed : Bool
  pub poison : Option NativePanicError
  pub linked : Bool
  pub cleanup : Option (Option String)

-- `zigoStreamCleanupState`
pub record CleanupState : Type 0 where
  pub ptr : Pointer
  pub linked : Bool
  pub site : Option String

-- `zigoNewStream`, with a parent that is not nil
unfoldable pub new : Pointer → Option String → Stream
new ptr site = record {
  ptr = ptr;
  active = 0;
  closed = false;
  poison = none;
  linked = true;
  cleanup = some site;
}

-- The second critical section of `zigoAcquire`
unfoldable pub pin : String → Stream → Stream × Result Pointer
pin operation s =
    if s.closed || is_nil s.ptr then (s, err (handle_error operation)) else elim s.poison [
      | some cause ↦ (s, err (poisoned cause operation))
      | none ↦ (record s { active = inc s.active }, ok s.ptr)
    ]

-- `zigoTakeLocked`
unfoldable pub take_locked : Stream → Stream × Option CleanupState
take_locked s = if not s.closed || (not (s.active == 0) || is_nil s.ptr) then (s, none) else (
  record s { ptr = none; linked = false },
  some (record { ptr = if is_nil s.poison then s.ptr else none; linked = s.linked; site = none }),
)

-- The critical section of `zigoPoison`
unfoldable pub mark : NativePanicError → Stream → Stream
mark cause s = if is_nil s.poison then record s { poison = some cause; cleanup = none } else s

module _ {P : Type 0} (parent : Parent P) where
  -- `zigoCleanupStream`
  unfoldable pub cleanup : CleanupState → P → P × List Effect
  cleanup state p = (
    if state.linked then parent.drop_child p else p,
    report_leak "Stream" state.site ++ deinit_pointer state.ptr,
  )

  abbrev pub cleanup_taken : Option CleanupState → P → P × List Effect
  cleanup_taken none p = (p, [])
  cleanup_taken (some state) p = cleanup state p

  abbrev pub release_parent : Bool → P → P × List Effect
  release_parent linked p = if linked then parent.release p else (p, [])

  -- What follows `Unlock` in `zigoAcquire`: the parent is let go if the stream was refused.
  settle : Bool → P → Stream × Result Pointer → (Stream × P) × Result Pointer × List Effect
  settle linked p (s, err x) =
      let (p', effects) = release_parent linked p in ((s, p'), err x, effects)
  settle linked p (s, ok ptr) = ((s, p), ok ptr, [])

  -- The parent has answered: its error ends the call, and nothing is pinned.
  pin_after :
      String → Stream → Bool → P × Result Pointer → (Stream × P) × Result Pointer × List Effect
  unfolding settle
  pin_after operation s linked (p, err x) = ((s, p), err x, [])
  pin_after operation s linked (p, ok _) = settle linked p (pin operation s)

  -- `zigoAcquire`, for a receiver that is not nil
  unfoldable pub acquire : String → Stream → P → (Stream × P) × Result Pointer × List Effect
  unfolding pin_after settle
  acquire operation s p =
      if s.linked
      then pin_after operation s true (parent.acquire operation p)
      else settle false p (pin operation s)

  -- `zigoRelease`, for a receiver that is not nil
  unfoldable pub release : Stream → P → (Stream × P) × List Effect
  release s p =
      let (s', state) = take_locked (record s { active = dec s.active }) in
      let (p', cleaned) = cleanup_taken state p in
      let (p'', released) = release_parent s.linked p' in ((s', p''), cleaned ++ released)

  -- `zigoPoison`, for a receiver that is not nil
  unfoldable pub poison : NativePanicError → Stream → P → Stream × P
  poison cause s p = (mark cause s, if s.linked then parent.poison cause p else p)

  -- `Close`, for a receiver that is not nil; the error is always nil
  unfoldable pub close : Stream → P → (Stream × P) × List Effect
  close s p =
      if s.closed
      then ((s, p), [])
      else let (s', state) = take_locked (record s { closed = true; cleanup = none }) in
        let (p', cleaned) = cleanup_taken state p in ((s', p'), cleaned)
