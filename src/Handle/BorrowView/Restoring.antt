-- ===== src/Handle/BorrowView/Restoring.antt =====
-- A refused call on a chain of handles, and one that returns at once.
use zigo.Prelude.{suc, ◌+◌, ◌<◌, ◌≡◌, true, false, [], List, String, word, arith, ap, if_cases}
use zigo.Handle.Common.{Pointer, Result, ok, err, Effect}
use zigo.Handle.BorrowBox as Box
use zigo.Handle.BorrowBox.{BorrowBox, take_locked}
use zigo.Handle.BorrowView.{
  BorrowView, Chain, box, view, pin, pin_child, release, settle, pin_after, acquire, Reservation,
  drop_child, let_child_go, with_reservation, reserve_after, acquire_child,
}

-- Fewer than 2 ^ 64 - 1 calls, and as many children, are inside each handle.
abbrev pub Small : Chain → Type 0
Small (box b) = (b.active + 1 < word) × (b.children + 1 < word)
Small (view v owner) = ((v.active + 1 < word) × (v.children + 1 < word)) × Small owner

-- What an acquire answered: refused with nothing changed, or granted, and undone by the release.
abbrev pub Undone : Chain → Chain × Result Pointer × List Effect → Type 0
Undone c (c', err x, effects) = (c' ≡ c) × (effects ≡ [])
Undone c (c', ok p, effects) = (release c' ≡ (c, [])) × (effects ≡ [])

abbrev box_answer : BorrowBox × Result Pointer → Chain × Result Pointer × List Effect
box_answer (b, acquired) = (box b, acquired, [])

box-Undone :
    (op : String) (b : BorrowBox) → b.active + 1 < word → Undone (box b) (acquire op (box b))
unfolding acquire release Box.acquire Box.release
box-Undone op b small = ground arith

abbrev alone_answer : Chain → BorrowView × Result Pointer → Chain × Result Pointer × List Effect
alone_answer owner (v, acquired) = (view v owner, acquired, [])

alone-Undone :
    (op : String) (v : BorrowView) (owner : Chain)
    → v.active + 1 < word
    → v.linked ≡ false
    → Undone (view v owner) (alone_answer owner (pin op v))
unfolding acquire release pin
alone-Undone op v owner small alone = ground arith

settle-Undone :
    (op : String) (v : BorrowView) (owner owner' : Chain)
    → v.active + 1 < word
    → v.linked ≡ true
    → release owner' ≡ (owner, [])
    → Undone (view v owner) (settle release owner' (pin op v))
unfolding settle pin release
settle-Undone op v owner owner' small linked back = ground arith

pin_after-Undone :
    (op : String) (v : BorrowView) (owner : Chain) (answer : Chain × Result Pointer × List Effect)
    → v.active + 1 < word
    → v.linked ≡ true
    → Undone owner answer
    → Undone (view v owner) (pin_after op v answer)
unfolding pin_after
pin_after-Undone op v owner (owner', err x, effects) small linked u =
    (ap (λ (q : Chain). view v q) u.0, u.1)
pin_after-Undone op v owner (owner', ok p, effects) small linked u =
    settle-Undone op v owner owner' small linked u.0

-- A call on a view, or on a box, with fewer than 2 ^ 64 - 1 calls and children inside each handle of its
-- chain, is either refused with every handle of the chain as it was, or it gets in, and a return
-- with nothing else between puts every handle back as it was; nothing is released on the way.
pub acquire-Undone : (op : String) (c : Chain) → Small c → Undone c (acquire op c)
unfolding acquire
acquire-Undone op (box b) small = box-Undone op b small.0
acquire-Undone op (view v owner) small =
    let above = acquire-Undone op owner small.1 in
    if_cases (Undone (view v owner)) v.linked
      (λ linked. pin_after-Undone op v owner (acquire op owner) small.0.0 linked above)
      (λ alone. alone-Undone op v owner small.0.0 alone)

-- The same for a call that reserves a child: its reservation is given back with it.
abbrev pub ChildUndone : Chain → Chain × Result (Pointer × Reservation) × List Effect → Type 0
ChildUndone c (c', err x, effects) = (c' ≡ c) × (effects ≡ [])
ChildUndone c (c', ok (p, n), effects) = (let_child_go n c' ≡ (c, [])) × (effects ≡ [])

box-ChildUndone :
    (op : String) (b : BorrowBox)
    → Small (box b)
    → ChildUndone (box b) (with_reservation 0 (box_answer (Box.acquire_child op b)))
unfolding with_reservation release let_child_go drop_child Box.acquire_child Box.release
    Box.drop_child
box-ChildUndone op b small = ground arith

alone-ChildUndone :
    (op : String) (v : BorrowView) (owner : Chain)
    → Small (view v owner)
    → v.linked ≡ false
    → ChildUndone (view v owner) (with_reservation 0 (alone_answer owner (pin_child op v)))
unfolding with_reservation release let_child_go drop_child pin_child
alone-ChildUndone op v owner small alone = ground arith

settle-ChildUndone :
    (op : String) (v : BorrowView) (owner owner' : Chain) (n : Reservation)
    → v.active + 1 < word
    → v.linked ≡ true
    → let_child_go n owner' ≡ (owner, [])
    → ChildUndone
        (view v owner)
        (with_reservation (suc n) (settle (let_child_go n) owner' (pin op v)))
unfolding settle with_reservation pin release let_child_go drop_child
settle-ChildUndone op v owner owner' n small linked back = ground arith

reserve_after-ChildUndone :
    (op : String) (v : BorrowView) (owner : Chain)
    (answer : Chain × Result (Pointer × Reservation) × List Effect)
    → v.active + 1 < word
    → v.linked ≡ true
    → ChildUndone owner answer
    → ChildUndone (view v owner) (reserve_after op v answer)
unfolding reserve_after
reserve_after-ChildUndone op v owner (owner', err x, effects) small linked u =
    (ap (λ (q : Chain). view v q) u.0, u.1)
reserve_after-ChildUndone op v owner (owner', ok (p, n), effects) small linked u =
    settle-ChildUndone op v owner owner' n small linked u.0

-- The same for a call that reserves a child, whose reservation goes with it.
pub acquire_child-ChildUndone :
    (op : String) (c : Chain) → Small c → ChildUndone c (acquire_child op c)
unfolding acquire_child
acquire_child-ChildUndone op (box b) small = box-ChildUndone op b small
acquire_child-ChildUndone op (view v owner) small =
    let above = acquire_child-ChildUndone op owner small.1 in
    if_cases (ChildUndone (view v owner)) v.linked
      (λ linked.
        reserve_after-ChildUndone op v owner (acquire_child op owner) small.0.0 linked above)
      (λ alone. alone-ChildUndone op v owner small alone)
