-- ===== src/Handle/BorrowView/Reserving.antt =====
-- What a child that was made through a view leaves reserved: one child of the box at the end of the
-- chain.
use zigo.Prelude.{
  suc, ◌+◌, ◌<◌, ◌≡◌, refl, true, false, [], List, String, inc, word, arith, ap, if_cases,
}
use zigo.Handle.Common.{Pointer, Result, ok, err, Effect}
use zigo.Handle.BorrowBox as Box
use zigo.Handle.BorrowBox.{BorrowBox, take_locked}
use zigo.Handle.BorrowView.{
  BorrowView, Chain, box, view, pin, release, settle, Reservation, drop_child, let_child_go,
  with_reservation, reserve_after, acquire_child,
}
use zigo.Handle.BorrowView.Restoring.{Small}
use zigo.Handle.BorrowView.Pinning.{is_linked}

abbrev pub root : Chain → BorrowBox
root (box b) = b
root (view v owner) = root owner

-- The chain with one more child of its box
unfoldable pub reserved : Chain → Chain
reserved (box b) = box (record b { children = inc b.children })
reserved (view v owner) = view v (reserved owner)

abbrev pub Reserved : Chain → Chain × Result (Pointer × Reservation) × List Effect → Type 0
Reserved c (c', err x, effects) = (c' ≡ c) × (effects ≡ [])
Reserved c (c', ok (p, n), effects) =
    (release c' ≡ (reserved c, []))
    × (let_child_go n c' ≡ (c, []))
    × (effects ≡ [])
    × ((root c).closed ≡ false)

box-Reserved :
    (op : String) (b : BorrowBox) → Small (box b) → Reserved (box b) (acquire_child op (box b))
unfolding acquire_child with_reservation release reserved let_child_go drop_child Box.acquire_child
    Box.release Box.drop_child
box-Reserved op b small = ground arith

settle-Reserved :
    (op : String) (v : BorrowView) (owner owner' : Chain) (n : Reservation)
    → v.active + 1 < word
    → v.linked ≡ true
    → release owner' ≡ (reserved owner, [])
    → let_child_go n owner' ≡ (owner, [])
    → (root owner).closed ≡ false
    → Reserved (view v owner) (with_reservation (suc n) (settle (let_child_go n) owner' (pin op v)))
unfolding settle with_reservation pin release reserved let_child_go drop_child
settle-Reserved op v owner owner' n small linked back gone o = ground arith

reserve_after-Reserved :
    (op : String) (v : BorrowView) (owner : Chain)
    (answer : Chain × Result (Pointer × Reservation) × List Effect)
    → v.active + 1 < word
    → v.linked ≡ true
    → Reserved owner answer
    → Reserved (view v owner) (reserve_after op v answer)
unfolding reserve_after
reserve_after-Reserved op v owner (owner', err x, effects) small linked u =
    (ap (λ (q : Chain). view v q) u.0, u.1)
reserve_after-Reserved op v owner (owner', ok (p, n), effects) small linked u =
    settle-Reserved op v owner owner' n small linked u.0 u.1 u.3

pub acquire_child-Reserved :
    (op : String) (c : Chain) → Small c → is_linked c ≡ true → Reserved c (acquire_child op c)
unfolding acquire_child
acquire_child-Reserved op (box b) small linked = box-Reserved op b small
acquire_child-Reserved op (view v owner) small linked =
    let above = acquire_child-Reserved op owner small.1 (ground arith) in
    if_cases (Reserved (view v owner)) v.linked
      (λ is_true.
        reserve_after-Reserved op v owner (acquire_child op owner) small.0.0 is_true above)
      (λ is_false. ground arith)

pub reserved-root :
    (c : Chain) → root (reserved c) ≡ record (root c) { children = inc (root c).children }
unfolding reserved
reserved-root (box b) = refl
reserved-root (view v owner) = reserved-root owner

pub root-Small : (c : Chain) → Small c → (root c).children + 1 < word
root-Small (box b) small = small.1
root-Small (view v owner) small = root-Small owner small.1
