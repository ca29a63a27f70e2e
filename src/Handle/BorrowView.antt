-- ===== src/Handle/BorrowView.antt =====
-- `BorrowView` of event_queue_handles_gen.go, lines 498-653: a handle on memory that another handle
-- owns. A call on it pins its owner first, and a dependent child is reserved on the ultimate owner; its
-- `Close` only detaches it.
-- The owner is a `BorrowBox` or again a view, so the methods are functions on a chain of handles: a
-- view, its owner, the owner's owner, down to a box. `linked` says that the field `owner` is not nil. The
-- functions stand for the view's methods and, by way of the lifecycle package, for the methods of its
-- owner.
pub mod Restoring
pub mod Reserving
pub mod Pinning
use zigo.Prelude.{
  ℕ, zero, suc, Bool, true, false, not, ◌||◌, Option, none, some, List, [], ◌++◌, String,
  if◌then◌else◌, ◌==◌, inc, dec,
}
use zigo.Errors.{GoError, NativePanicError, handle_error, handle_in_use_error, poisoned}
use zigo.Handle.Common.{Pointer, is_nil, Result, ok, err, Effect}
use zigo.Handle.BorrowBox as Box
use zigo.Handle.BorrowBox.{BorrowBox}

pub record BorrowView : Type 0 where
  pub ptr : Pointer
  pub active : ℕ  -- int
  pub children : ℕ  -- int
  pub closed : Bool
  pub poison : Option NativePanicError
  pub linked : Bool

-- `zigoNewBorrowedBorrowView`, with an owner that is not nil
unfoldable pub new : Pointer → BorrowView
new ptr = record {
  ptr = ptr;
  active = 0;
  children = 0;
  closed = false;
  poison = none;
  linked = true;
}

pub data Chain : Type 0 where
  box : BorrowBox → Chain
  view : BorrowView → Chain → Chain

-- A critical section that either takes the view as changed or fails
admit {ℓ} :
    {A : Type ℓ}
    → String
    → BorrowView
    → BorrowView × A
    → Option NativePanicError
    → BorrowView × Result A
admit operation v granted (some cause) = (v, err (poisoned cause operation))
admit operation v (v', a) none = (v', ok a)

-- The second critical section of `zigoAcquire`
unfoldable pub pin : String → BorrowView → BorrowView × Result Pointer
unfolding admit
pin operation v =
    if v.closed || is_nil v.ptr
    then (v, err (handle_error operation))
    else admit operation v (record v { active = inc v.active }, v.ptr) v.poison

-- The critical section of `zigoAcquireChild` without an owner: the view counts the child itself.
unfoldable pub pin_child : String → BorrowView → BorrowView × Result Pointer
unfolding admit
pin_child operation v =
    if v.closed || is_nil v.ptr
    then (v, err (handle_error operation))
    else admit operation v (record v { active = inc v.active; children = inc v.children }, v.ptr)
        v.poison

-- The critical section of `zigoPoison`
unfoldable pub mark : NativePanicError → BorrowView → BorrowView
mark cause v = if is_nil v.poison then record v { poison = some cause } else v

-- `zigoRelease`
unfoldable pub release : Chain → Chain × List Effect
release (box b) = let (b', effects) = Box.release b in (box b', effects)
release (view v owner) =
    let (owner', effects) = release owner in
    if v.linked
    then (view (record v { active = dec v.active }) owner', effects)
    else (view (record v { active = dec v.active }) owner, [])

-- `zigoPoison`
unfoldable pub poison : NativePanicError → Chain → Chain
poison cause (box b) = box (Box.poison cause b)
poison cause (view v owner) =
    let owner' = poison cause owner in view (mark cause v) (if v.linked then owner' else owner)

-- What follows `Unlock` in `zigoAcquire`: the owner is let go if the view refused the call.
unfoldable pub settle {ℓ} :
    {A : Type ℓ}
    → (Chain → Chain × List Effect)
    → Chain
    → BorrowView × Result A
    → Chain × Result A × List Effect
settle let_go owner (v, err x) =
    let (owner', effects) = let_go owner in (view v owner', err x, effects)
settle let_go owner (v, ok a) = (view v owner, ok a, [])

-- The owner has answered: its error ends the call.
unfoldable pub pin_after :
    String
    → BorrowView
    → Chain × Result Pointer × List Effect
    → Chain × Result Pointer × List Effect
pin_after operation v (owner, err x, effects) = (view v owner, err x, effects)
pin_after operation v (owner, ok _, effects) = settle release owner (pin operation v)

-- `zigoAcquire`
unfoldable pub acquire : String → Chain → Chain × Result Pointer × List Effect
acquire operation (box b) = let (b', acquired) = Box.acquire operation b in (box b', acquired, [])
acquire operation (view v owner) =
    let answer = acquire operation owner in
    if v.linked
    then pin_after operation v answer
    else let (v', acquired) = pin operation v in (view v' owner, acquired, [])

-- A reservation is the handle that counts the child: how many owners away from the handle it is.
abbrev pub Reservation : Type 0
Reservation = ℕ

-- `zigoDropChild` of the handle that is the reservation
unfoldable pub drop_child : Reservation → Chain → Chain
drop_child n (box b) = box (Box.drop_child b)
drop_child zero (view v owner) = view (record v { children = dec v.children }) owner
drop_child (suc n) (view v owner) = view v (drop_child n owner)

-- The owner's call and the reservation are given back.
unfoldable pub let_child_go : Reservation → Chain → Chain × List Effect
let_child_go n owner = let (owner', effects) = release owner in (drop_child n owner', effects)

unfoldable pub with_reservation :
    Reservation
    → Chain × Result Pointer × List Effect
    → Chain × Result (Pointer × Reservation) × List Effect
with_reservation n (c, ok p, effects) = (c, ok (p, n), effects)
with_reservation n (c, err x, effects) = (c, err x, effects)

unfoldable pub reserve_after :
    String
    → BorrowView
    → Chain × Result (Pointer × Reservation) × List Effect
    → Chain × Result (Pointer × Reservation) × List Effect
reserve_after operation v (owner, err x, effects) = (view v owner, err x, effects)
reserve_after operation v (owner, ok (_, n), effects) =
    with_reservation (suc n) (settle (let_child_go n) owner (pin operation v))

-- `zigoAcquireChild`
unfoldable pub acquire_child : String → Chain → Chain × Result (Pointer × Reservation) × List Effect
acquire_child operation (box b) =
    let (b', acquired) = Box.acquire_child operation b in with_reservation 0 (box b', acquired, [])
acquire_child operation (view v owner) =
    let answer = acquire_child operation owner in
    if v.linked
    then reserve_after operation v answer
    else let (v', acquired) = pin_child operation v in
      with_reservation 0 (view v' owner, acquired, [])

-- `Close` of a view. The owner is not called; it is forgotten.
unfoldable pub close : BorrowView → BorrowView × Option GoError
close v =
    if v.closed
    then (v, none)
    else if not (v.active == 0)
    then (v, some (handle_in_use_error "BorrowView.Close" v.active))
    else (record v { closed = true; ptr = none; linked = false }, none)
