-- ===== src/Tests/Borrowing.antt =====
-- A view on a view on a box, and a child of it.
use zigo.Prelude.{◌≡◌, ◌≤◌, refl, true, none, some, List, [], ◌∷◌, arith, String}
use zigo.Prelude.Int.{ℤ, pos}
use zigo.Errors.{NativePanicError}
use zigo.Handle.Common.{Pointer}
use zigo.Handle.BorrowBox as Box
use zigo.Handle.BorrowBox.{BorrowBox}
use zigo.Handle.BorrowChild as Child
use zigo.Handle.BorrowChild.{BorrowChild}
use zigo.Handle.BorrowView as View
use zigo.Handle.BorrowView.{Chain, box, view, acquire}
use zigo.Handle.BorrowView.Restoring.{Small}
use zigo.Handle.BorrowView.Pinning.{RefusesClose, acquire-RefusesClose, in_use}
use zigo.Handle.BorrowView.Reserving.{reserved, root}
use zigo.Handle.Lifecycle.Instances.{box_parent}
use zigo.Handle.Scratch as Buffers
use zigo.Handle.Scratch.{Action, takes, gives, releases}
use zigo.Handle.Scratch.Lending.{holders, fits, run-holders}
use zigo.Methods.Plain.{Raw, child_made, new_borrow_child}
use zigo.Methods.Plain.Borrowing.{new_borrow_child-close}

message : ℤ → String
message code = "index out of bounds"

abbrev two_views : Chain
two_views = view (View.new (some 31)) (view (View.new (some 30)) (box (Box.new (some 7) none)))

two_views-Small : Small two_views
unfolding View.new Box.new
two_views-Small = ground arith

acquire-RefusesClose_example : RefusesClose (acquire "BorrowView.Get receiver" two_views).0
unfolding View.new Box.new Box.acquire View.acquire View.pin_after View.settle View.pin
acquire-RefusesClose_example =
    acquire-RefusesClose "BorrowView.Get receiver" two_views (some 31) two_views-Small refl refl

abbrev cause : NativePanicError
cause = record { operation = "BorrowView.Explode"; message = "index out of bounds" }

-- The native side reads 5, and reports the error 9 for a nil pointer.
abbrev get : Pointer → Raw ℤ
get none = (pos 0, pos 9)
get (some p) = (pos 5, pos 0)

abbrev new_child : Pointer → Raw Pointer
new_child p = (some 40, pos 0)

abbrev child : BorrowChild
child = Child.new (some 40) none

new_borrow_child-close_example :
    let c' = (new_borrow_child message new_child none two_views).0 in
    (c' ≡ reserved two_views)
    × (in_use (Box.close (root c')).1 ≡ true)
    × ((Box.close (root c')).0 ≡ root c')
    × ((Child.close box_parent child (root c')).0.1 ≡ root two_views)
unfolding new_borrow_child View.new Box.new Child.new View.acquire_child View.reserve_after
    View.settle View.pin View.with_reservation Box.acquire_child child_made
new_borrow_child-close_example =
    new_borrow_child-close message new_child none two_views child two_views-Small refl refl refl

abbrev overlapping : List Action
overlapping = takes 4 ∷ takes 2 ∷ gives 1 ∷ gives 0 ∷ takes 9 ∷ []

run-holders_example :
    (holders 2 (Buffers.run Buffers.start overlapping) ≤ 1)
    × (fits (Buffers.run Buffers.start overlapping).lent ≡ true)
run-holders_example = run-holders overlapping 2
