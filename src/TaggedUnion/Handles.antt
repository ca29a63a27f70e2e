-- ===== src/TaggedUnion/Handles.antt =====
-- The handle types of the tagged union package
-- (examples/10-tagged-union/go/tagged_union/tagged_union_handles_gen.go): `Child`, `Value`, `Signal` and
-- `Palette`, which are the same but for their name, and the borrowed `ChildRef` and `ValueRef`.
-- A reference leads to its parent's object, so its methods take and return the parent's state with it.
pub mod Keeping
use zigo.Prelude.{
  ℕ, Bool, true, false, not, ◌||◌, Option, none, some, List, [], ◌++◌, String, if◌then◌else◌, ◌==◌,
  inc, dec,
}
use zigo.Errors.{GoError, NativePanicError, handle_error, poisoned}
use zigo.Handle.Common.{Pointer, is_nil, Result, ok, err, Effect, report_leak, deinit_pointer}
use zigo.Handle.Lifecycle.{Lifecycle}

-- `Value`, and the other owned handles
pub record Owned : Type 0 where
  pub ptr : Pointer
  pub active : ℕ  -- int
  pub closed : Bool
  pub poison : Option NativePanicError
  pub cleanup : Option (Option String)

-- `zigoValueCleanupState`
pub record CleanupState : Type 0 where
  pub ptr : Pointer
  pub site : Option String

-- `zigoNewValue`
unfoldable pub new : Pointer → Option String → Owned
new ptr site = record { ptr = ptr; active = 0; closed = false; poison = none; cleanup = some site }

admit : String → Owned → Option NativePanicError → Owned × Result Pointer
admit operation v (some cause) = (v, err (poisoned cause operation))
admit operation v none = (record v { active = inc v.active }, ok v.ptr)

-- `zigoAcquire`, for a receiver that is not nil
unfoldable pub acquire : String → Owned → Owned × Result Pointer
unfolding admit
acquire operation v =
    if v.closed || is_nil v.ptr
    then (v, err (handle_error operation))
    else admit operation v v.poison

-- `zigoPoison`
unfoldable pub poison : NativePanicError → Owned → Owned
poison cause v = if is_nil v.poison then record v { poison = some cause; cleanup = none } else v

-- `zigoTakeLocked`
unfoldable pub take_locked : Owned → Owned × Option CleanupState
take_locked v = if not v.closed || (not (v.active == 0) || is_nil v.ptr) then (v, none) else (
  record v { ptr = none },
  some (record { ptr = if is_nil v.poison then v.ptr else none; site = none }),
)

module _ (type_name : String) where
  -- `zigoCleanupValue`
  unfoldable pub cleanup : CleanupState → List Effect
  cleanup state = report_leak type_name state.site ++ deinit_pointer state.ptr

  abbrev pub cleanup_taken : Option CleanupState → List Effect
  cleanup_taken none = []
  cleanup_taken (some state) = cleanup state

  -- `zigoRelease`, for a receiver that is not nil
  unfoldable pub release : Owned → Owned × List Effect
  unfolding take_locked
  release v =
      let (v', state) = take_locked (record v { active = dec v.active }) in
      (v', cleanup_taken state)

  -- `Close`, for a receiver that is not nil
  unfoldable pub close : Owned → Owned × Option GoError × List Effect
  unfolding take_locked
  close v =
      if v.closed
      then (v, none, [])
      else let (v', state) = take_locked (record v { closed = true; cleanup = none }) in
        (v', none, cleanup_taken state)

  -- The handle as a `zigoHandle`
  abbrev pub owned : Lifecycle Owned
  owned = record {
    acquire = λ operation v. let (v', answer) = acquire operation v in (v', answer, []);
    release = release;
    poison = poison;
  }

-- `ValueRef` and `ChildRef`, over the state `H` of the parent
pub record Reference (H : Type 0) : Type 0 where
  pub ptr : Pointer
  pub parent : Option H

module _ {H : Type 0} (l : Lifecycle H) where
  abbrev over : Reference H → H → Reference H
  over r p = record r { parent = some p }

  acquired_over :
      Reference H → H × Result Pointer × List Effect → Reference H × Result Pointer × List Effect
  acquired_over r (p, err e, effects) = (over r p, err e, effects)
  acquired_over r (p, ok ptr, effects) = (over r p, ok r.ptr, effects)

  acquire_parent : String → Reference H → Option H → Reference H × Result Pointer × List Effect
  unfolding acquired_over
  acquire_parent operation r none = (r, ok r.ptr, [])
  acquire_parent operation r (some p) = acquired_over r (l.acquire operation p)

  -- `ValueRef.zigoAcquire`, for a receiver that is not nil
  unfoldable pub acquire_reference :
      String → Reference H → Reference H × Result Pointer × List Effect
  unfolding acquire_parent
  acquire_reference operation r =
      if is_nil r.ptr
      then (r, err (handle_error operation), [])
      else acquire_parent operation r r.parent

  release_parent : Reference H → Option H → Reference H × List Effect
  release_parent r none = (r, [])
  release_parent r (some p) = let (p', effects) = l.release p in (over r p', effects)

  -- `ValueRef.zigoRelease`
  unfoldable pub release_reference : Reference H → Reference H × List Effect
  unfolding release_parent
  release_reference r = release_parent r r.parent

  poison_parent : NativePanicError → Reference H → Option H → Reference H
  poison_parent cause r none = r
  poison_parent cause r (some p) = over r (l.poison cause p)

  -- `ValueRef.zigoPoison`
  unfoldable pub poison_reference : NativePanicError → Reference H → Reference H
  unfolding poison_parent
  poison_reference cause r = poison_parent cause r r.parent

  -- The reference as a `zigoHandle`
  abbrev pub reference : Lifecycle (Reference H)
  reference = record {
    acquire = acquire_reference;
    release = release_reference;
    poison = poison_reference;
  }

-- The methods of the handle types, type by type
abbrev pub child : Lifecycle Owned
child = owned "Child"

abbrev pub value : Lifecycle Owned
value = owned "Value"

abbrev pub signal : Lifecycle Owned
signal = owned "Signal"

abbrev pub palette : Lifecycle Owned
palette = owned "Palette"

-- `Close`, with `zigoTakeLocked`
abbrev pub close_child : Owned → Owned × Option GoError × List Effect
close_child = close "Child"

abbrev pub close_value : Owned → Owned × Option GoError × List Effect
close_value = close "Value"

abbrev pub close_signal : Owned → Owned × Option GoError × List Effect
close_signal = close "Signal"

abbrev pub close_palette : Owned → Owned × Option GoError × List Effect
close_palette = close "Palette"

-- A `ChildRef` that `AsChild` made of a receiver behind `l`
abbrev pub child_reference : {H : Type 0} → Lifecycle H → Lifecycle (Reference H)
child_reference l = reference l

-- A `ValueRef` that `Borrow` made
abbrev pub value_reference : Lifecycle (Reference Owned)
value_reference = reference value
