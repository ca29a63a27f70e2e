-- ===== src/Handle/BorrowView/Pinning.antt =====
-- When a chain of handles takes a call, and what `Close` does to it while the call is inside.
use zigo.Prelude.{
  ◌+◌, ◌<◌, ◌≡◌, refl, Bool, true, false, not, ◌&&◌, ◌||◌, some, none, Option, [], List, String,
  word, arith, if_cases, if◌then◌else◌,
}
use zigo.Errors.{
  GoError, NativePanicError, is, is_sentinel, handle_in_use, native_panic, invalid_handle, poisoned,
}
use zigo.Handle.Common.{Pointer, is_nil, Result, ok, err, Effect}
use zigo.Handle.BorrowBox as Box
use zigo.Handle.BorrowBox.{BorrowBox}
use zigo.Handle.BorrowView.{
  BorrowView, Chain, box, view, pin, settle, pin_after, acquire, release, poison, mark, close,
}
use zigo.Handle.BorrowView.Restoring.{Small}

abbrev pub granted : Chain × Result Pointer × List Effect → Bool
granted (c, ok p, effects) = true
granted (c, err x, effects) = false

-- Open, not detached, and not poisoned, down the owners
abbrev pub is_usable : Chain → Bool
is_usable (box b) = not b.closed && (not (is_nil b.ptr) && is_nil b.poison)
is_usable (view v owner) =
    let rest = is_usable owner in
    (not v.closed && (not (is_nil v.ptr) && is_nil v.poison)) && (if v.linked then rest else true)

pin_after-granted :
    (op : String) (v : BorrowView) (answer : Chain × Result Pointer × List Effect)
    → granted (pin_after op v answer)
      ≡ (not v.closed && (not (is_nil v.ptr) && is_nil v.poison)) && granted answer
unfolding pin_after settle pin
pin_after-granted op v (owner, err x, effects) = ground arith
pin_after-granted op v (owner, ok p, effects) = ground arith

-- A call gets in exactly when the view and all its owners, down to the box, are open and not poisoned.
pub acquire-granted : (op : String) (c : Chain) → granted (acquire op c) ≡ is_usable c
unfolding acquire Box.acquire pin
acquire-granted op (box b) = ground arith
acquire-granted op (view v owner) =
    let above = acquire-granted op owner in
    ground (arith, above, pin_after-granted op v (acquire op owner))

abbrev pub in_use : Option GoError → Bool
in_use none = false
in_use (some x) = is x (is_sentinel handle_in_use)

-- `Close` of each handle of the chain fails with an error that matches `ErrHandleInUse`, and changes
-- nothing.
abbrev pub RefusesClose : Chain → Type 0
RefusesClose (box b) =
    (in_use (Box.close b).1 ≡ true) × ((Box.close b).0 ≡ b) × ((Box.close b).2 ≡ [])
RefusesClose (view v owner) = ((in_use (close v).1 ≡ true) × ((close v).0 ≡ v)) × RefusesClose owner

abbrev pub is_linked : Chain → Bool
is_linked (box b) = true
is_linked (view v owner) = let rest = is_linked owner in v.linked && rest

box-RefusesClose :
    (op : String) (b : BorrowBox) (p : Pointer)
    → b.active + 1 < word
    → (Box.acquire op b).1 ≡ ok p
    → RefusesClose (box (Box.acquire op b).0)
unfolding Box.acquire Box.close is
box-RefusesClose op b p small h = ground arith

pin-close :
    (op : String) (v : BorrowView) (p : Pointer)
    → v.active + 1 < word
    → (pin op v).1 ≡ ok p
    → (in_use (close (pin op v).0).1 ≡ true) × ((close (pin op v).0).0 ≡ (pin op v).0)
unfolding pin close is
pin-close op v p small h = ground arith

settle-RefusesClose :
    (owner : Chain) (answer : BorrowView × Result Pointer) (p : Pointer)
    → (answer.1 ≡ ok p → (in_use (close answer.0).1 ≡ true) × ((close answer.0).0 ≡ answer.0))
    → RefusesClose owner
    → (settle release owner answer).1 ≡ ok p
    → RefusesClose (settle release owner answer).0
unfolding settle
settle-RefusesClose owner (v, ok a) p h held e = (h e, held)
settle-RefusesClose owner (v, err x) p h held e = ground arith

pin_after-RefusesClose :
    (op : String) (v : BorrowView) (answer : Chain × Result Pointer × List Effect) (p : Pointer)
    → v.active + 1 < word
    → ((q : Pointer) → answer.1 ≡ ok q → RefusesClose answer.0)
    → (pin_after op v answer).1 ≡ ok p
    → RefusesClose (pin_after op v answer).0
unfolding pin_after
pin_after-RefusesClose op v (owner, ok q, effects) p small held e =
    settle-RefusesClose owner (pin op v) p (pin-close op v p small) (held q refl) e
pin_after-RefusesClose op v (owner, err x, effects) p small held e = ground arith

-- While a call is inside a view, through which it pins the owners down to the box, `Close` of each of
-- them is refused with an error that matches `ErrHandleInUse`, and changes nothing. All the views have
-- their owner, and fewer than 2 ^ 64 - 1 calls are inside each handle.
pub acquire-RefusesClose :
    (op : String) (c : Chain) (p : Pointer)
    → Small c
    → is_linked c ≡ true
    → (acquire op c).1 ≡ ok p
    → RefusesClose (acquire op c).0
unfolding acquire
acquire-RefusesClose op (box b) p small linked h = box-RefusesClose op b p small.0 h
acquire-RefusesClose op (view v owner) p small linked h =
    let answer = acquire op owner in
    if_cases (λ (r : Chain × Result Pointer × List Effect). r.1 ≡ ok p → RefusesClose r.0) v.linked
      (λ is_true.
        pin_after-RefusesClose op v answer p small.0.0
          (λ q. acquire-RefusesClose op owner q small.1 (ground arith)))
      (λ is_false. ground arith) h

-- An error that matches `ErrNativePanic` or `ErrInvalidHandle`
abbrev pub barred : Result Pointer → Bool
barred (ok p) = false
barred (err x) = is x (is_sentinel native_panic) || is x (is_sentinel invalid_handle)

pin_after-barred :
    (op : String) (v : BorrowView) (cause : NativePanicError)
    (answer : Chain × Result Pointer × List Effect)
    → (barred answer.1 ≡ true)
    → barred (pin_after op (mark cause v) answer).1 ≡ true
unfolding pin_after
pin_after-barred op v cause (owner, ok p, effects) h = ground arith
pin_after-barred op v cause (owner, err x, effects) h = h

-- After a Zig panic in a call on a view, or on a box, no further call gets in through that handle:
-- each is refused with an error that matches `ErrNativePanic`, or `ErrInvalidHandle` where a handle of
-- the chain is closed.
pub acquire-poison :
    (op : String) (cause : NativePanicError) (c : Chain)
    → barred (acquire op (poison cause c)).1 ≡ true
unfolding acquire poison mark pin Box.acquire Box.poison poisoned is
acquire-poison op cause (box b) = ground arith
acquire-poison op cause (view v owner) =
    let above = acquire-poison op cause owner in
    ground (arith, above, pin_after-barred op v cause (acquire op (poison cause owner)) above)
