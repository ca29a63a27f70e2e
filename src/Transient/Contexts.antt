-- ===== src/Transient/Contexts.antt =====
-- `CallbackContext`: a handle that owns a callback, or that is borrowed from another handle
-- (examples/04-callback/go/callback_handles_gen.go, lines 14-191).
-- The owner of a borrowed one is another object, so a method takes and returns the state of both. `linked`
-- says that the field `owner` is not nil; which owner it is never changes.
pub mod Owning
use zigo.Prelude.{
  ℕ, Bool, true, false, not, ◌||◌, Option, none, some, List, [], ◌∷◌, ◌++◌, String, if◌then◌else◌,
  ◌==◌, inc, dec, get_or, set,
}
use zigo.Errors.{GoError, NativePanicError, handle_error, handle_in_use_error, poisoned}
use zigo.Handle.Common.{
  Pointer, is_nil, Result, ok, err, Effect, report_leak, deinit_pointer, delete_callback_handles,
}
use zigo.Handle.Lifecycle.{Lifecycle}

pub record CallbackContext : Type 0 where
  pub ptr : Pointer
  pub active : ℕ  -- int
  pub closed : Bool
  pub poison : Option NativePanicError
  pub linked : Bool
  pub callback_handles : List ℕ
  pub cleanup : Option (Option String)

-- `zigoCallbackContextCleanupState`
pub record CleanupState : Type 0 where
  pub ptr : Pointer
  pub callback_handles : List ℕ
  pub site : Option String

-- `zigoNewBorrowedCallbackContext`, of an owner that is there or nil
unfoldable pub new_borrowed : Pointer → Bool → CallbackContext
new_borrowed ptr linked = record {
  ptr = ptr;
  active = 0;
  closed = false;
  poison = none;
  linked = linked;
  callback_handles = 0 ∷ [];
  cleanup = none;
}

-- `zigoNewCallbackContext`
unfoldable pub new : Pointer → List ℕ → Option String → CallbackContext
new ptr callback_handles site = record {
  ptr = ptr;
  active = 0;
  closed = false;
  poison = none;
  linked = false;
  callback_handles = callback_handles;
  cleanup = some site;
}

-- `zigoCallbackHandle`, for a slot that is there
unfoldable pub callback_handle : ℕ → CallbackContext → ℕ
callback_handle slot c = get_or c.callback_handles slot 0

-- `zigoReplaceCallbackHandle`, for a slot that is there
unfoldable pub replace_callback_handle : ℕ → ℕ → CallbackContext → CallbackContext × ℕ
replace_callback_handle slot handle c = (
  record c { callback_handles = set c.callback_handles slot handle },
  get_or c.callback_handles slot 0,
)

-- `zigoCleanupCallbackContext`
unfoldable pub cleanup : CleanupState → List Effect
cleanup state =
    report_leak "CallbackContext" state.site
    ++ (deinit_pointer state.ptr ++ delete_callback_handles state.callback_handles)

-- `zigoTakeLocked`
unfoldable pub take_locked : CallbackContext → CallbackContext × Option CleanupState
take_locked c = if not c.closed || (not (c.active == 0) || is_nil c.ptr) then (c, none) else (
  record c { ptr = none; callback_handles = [] },
  some (record {
    ptr = if is_nil c.poison then c.ptr else none;
    callback_handles = c.callback_handles;
    site = none;
  }),
)

abbrev pub cleanup_taken : Option CleanupState → List Effect
cleanup_taken none = []
cleanup_taken (some state) = cleanup state

-- The second critical section of `zigoAcquire`
unfoldable pub pin : String → CallbackContext → CallbackContext × Result Pointer
pin operation c =
    if c.closed || is_nil c.ptr then (c, err (handle_error operation)) else elim c.poison [
      | some cause ↦ (c, err (poisoned cause operation))
      | none ↦ (record c { active = inc c.active }, ok c.ptr)
    ]

-- The critical section of `zigoPoison`
unfoldable pub mark : NativePanicError → CallbackContext → CallbackContext
mark cause c =
    if is_nil c.poison
    then record c { poison = some cause; cleanup = if c.linked then c.cleanup else none }
    else c

-- The handle afterwards, the error of `Close`, and what was called out
abbrev pub Closed : Type 0
Closed = CallbackContext × Option GoError × List Effect

-- `Close` of a borrowed handle that was not closed
unfoldable pub detach : CallbackContext → Closed
detach c =
    if not (c.active == 0)
    then (c, some (handle_in_use_error "CallbackContext.Close" c.active), [])
    else (record c { closed = true; ptr = none; linked = false }, none, [])

-- `Close`, for a receiver that is not nil
unfoldable pub close : CallbackContext → Closed
unfolding detach take_locked
close c =
    if c.closed
    then (c, none, [])
    else if c.linked
    then detach c
    else let (c', state) = take_locked (record c { closed = true; cleanup = none }) in
      (c', none, cleanup_taken state)

module _ {H : Type 0} (l : Lifecycle H) where
  abbrev release_owner : Bool → H → H × List Effect
  release_owner linked h = if linked then l.release h else (h, [])

  -- What follows `Unlock` in `zigoAcquire`: the owner is let go if the handle refused.
  unfoldable pub settle :
      Bool
      → H
      → List Effect
      → CallbackContext × Result Pointer
      → (CallbackContext × H) × Result Pointer × List Effect
  settle linked h earlier (c, err e) =
      let (h', effects) = release_owner linked h in ((c, h'), err e, earlier ++ effects)
  settle linked h earlier (c, ok ptr) = ((c, h), ok ptr, earlier)

  -- The owner has answered: its error ends the call, and nothing is pinned.
  unfoldable pub pin_after :
      String
      → CallbackContext
      → H × Result Pointer × List Effect
      → (CallbackContext × H) × Result Pointer × List Effect
  unfolding pin settle
  pin_after operation c (h, err e, effects) = ((c, h), err e, effects)
  pin_after operation c (h, ok ptr, effects) = settle true h effects (pin operation c)

  -- `zigoAcquire`, for a receiver that is not nil
  unfoldable pub acquire :
      String → CallbackContext × H → (CallbackContext × H) × Result Pointer × List Effect
  unfolding pin_after
  acquire operation (c, h) =
      if c.linked
      then pin_after operation c (l.acquire operation h)
      else settle false h [] (pin operation c)

  -- `zigoRelease`, for a receiver that is not nil
  unfoldable pub release : CallbackContext × H → (CallbackContext × H) × List Effect
  unfolding take_locked
  release (c, h) =
      let (c', state) = take_locked (record c { active = dec c.active }) in
      let (h', effects) = release_owner c.linked h in ((c', h'), cleanup_taken state ++ effects)

  -- `zigoPoison`, for a receiver that is not nil
  unfoldable pub poison : NativePanicError → CallbackContext × H → CallbackContext × H
  unfolding mark
  poison cause (c, h) = (mark cause c, if c.linked then l.poison cause h else h)

  -- The handle as a `zigoHandle`
  abbrev pub context : Lifecycle (CallbackContext × H)
  context = record { acquire = acquire; release = release; poison = poison }
