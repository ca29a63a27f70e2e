-- ===== src/Methods/Plain/Borrowing.antt =====
-- A child made through a view, from `NewBorrowChild` to its `Close`.
use zigo.Prelude.{
  ◌+◌, ◌<◌, ◌≡◌, ◌∙◌, sym, ap, true, false, [], List, Option, String, inc, word, arith,
}
use zigo.Prelude.Int.{ℤ}
use zigo.Errors.{is}
use zigo.Handle.Common.{Pointer, is_nil, Result, ok, err, Effect}
use zigo.Handle.BorrowBox as Box
use zigo.Handle.BorrowBox.{BorrowBox}
use zigo.Handle.BorrowChild as Child
use zigo.Handle.BorrowChild.{BorrowChild}
use zigo.Handle.BorrowView as View
use zigo.Handle.BorrowView.{Chain, Reservation}
use zigo.Handle.BorrowView.Restoring.{Small}
use zigo.Handle.BorrowView.Pinning.{is_linked, in_use}
use zigo.Handle.BorrowView.Reserving.{
  Reserved, reserved, root, reserved-root, root-Small, acquire_child-Reserved,
}
use zigo.Handle.Lifecycle.Instances.{box_parent}
use zigo.Methods.Plain.{Raw, child_made, new_borrow_child}

-- What a success of `NewBorrowChild` means
abbrev pub Made : Chain → BorrowChild → Chain × Result BorrowChild × List Effect → Type 0
Made c child r =
    (r.0 ≡ reserved c)
    × (r.2 ≡ [])
    × (child.active ≡ 0)
    × (child.closed ≡ false)
    × (child.linked ≡ true)
    × ((root c).closed ≡ false)

child_made-Made :
    (message : ℤ → String) (site : Option String) (c c' : Chain) (n : Reservation)
    (native : Raw Pointer) (child : BorrowChild)
    → View.release c' ≡ (reserved c, [])
    → (root c).closed ≡ false
    → (child_made message site c' n native).1 ≡ ok child
    → Made c child (child_made message site c' n native)
unfolding child_made Child.new
child_made-Made message site c c' n (result, code) child back o h = ground arith

answered-Made :
    (message : ℤ → String) (site : Option String) (c : Chain) (native : Pointer → Raw Pointer)
    (child : BorrowChild) (answer : Chain × Result (Pointer × Reservation) × List Effect)
    → Reserved c answer
    → let r : Chain × Result BorrowChild × List Effect = elim answer.1 [
      | err e ↦ (answer.0, err e, answer.2)
      | ok q ↦ child_made message site answer.0 q.1 (native q.0)
    ] in
      r.1 ≡ ok child → Made c child r
answered-Made message site c native child (c', err x, effects) u h = ground arith
answered-Made message site c native child (c', ok (p, n), effects) u h =
    child_made-Made message site c c' n (native p) child u.0 u.3 h

new_borrow_child-Made :
    (message : ℤ → String) (native : Pointer → Raw Pointer) (site : Option String) (c : Chain)
    (child : BorrowChild)
    → Small c
    → is_linked c ≡ true
    → (new_borrow_child message native site c).1 ≡ ok child
    → Made c child (new_borrow_child message native site c)
unfolding new_borrow_child
new_borrow_child-Made message native site c child small linked h =
    answered-Made message site c native child _
      (acquire_child-Reserved "BorrowView.NewBorrowChild receiver" c small linked) h

box-child :
    (b : BorrowBox) (child : BorrowChild)
    → b.closed ≡ false
    → b.children + 1 < word
    → child.active ≡ 0
    → child.closed ≡ false
    → child.linked ≡ true
    → is_nil child.ptr ≡ false
    → let b' : BorrowBox = record b { children = inc b.children } in
      (in_use (Box.close b').1 ≡ true)
      × ((Box.close b').0 ≡ b')
      × ((Child.close box_parent child b').0.1 ≡ b)
unfolding Box.close Box.drop_child Child.close Child.take_locked Child.cleanup is
box-child b child o small idle child_open linked here = ground arith

-- When `NewBorrowChild` of a view succeeds with a pointer that is not nil, the box at the end of its
-- owners counts one child more and is otherwise as it was, and so are the views; `Close` of the box is
-- then refused with an error that matches `ErrHandleInUse`, until `Close` of the child puts the
-- count back. The views have their owners, and each handle has room for one more call and child.
pub new_borrow_child-close :
    (message : ℤ → String) (native : Pointer → Raw Pointer) (site : Option String) (c : Chain)
    (child : BorrowChild)
    → Small c
    → is_linked c ≡ true
    → (new_borrow_child message native site c).1 ≡ ok child
    → is_nil child.ptr ≡ false
    → let c' = (new_borrow_child message native site c).0 in
      (c' ≡ reserved c)
      × (in_use (Box.close (root c')).1 ≡ true)
      × ((Box.close (root c')).0 ≡ root c')
      × ((Child.close box_parent child (root c')).0.1 ≡ root c)
new_borrow_child-close message native site c child small linked h here =
    let made = new_borrow_child-Made message native site c child small linked h in
    let same = ap (λ (q : Chain). root q) made.0 ∙ reserved-root c in
    let kept = box-child (root c) child made.5 (root-Small c small) made.2 made.3 made.4 here in
    (
      made.0,
      ap (λ (b : BorrowBox). in_use (Box.close b).1) same ∙ kept.0,
      ap (λ (b : BorrowBox). (Box.close b).0) same ∙ kept.1 ∙ sym same,
      ap (λ (b : BorrowBox). (Child.close box_parent child b).0.1) same ∙ kept.2,
    )
