-- ===== src/Handle/Lifecycle/Instances.antt =====
-- The handle types of the package behind the interface: each `Register` of
-- event_queue_runtime_gen.go, with the laws that clients count on.
use zigo.Prelude.{◌+◌, ◌<◌, [], List, word, arith}
use zigo.Handle.Common.{Pointer, Result, ok, err, Effect}
use zigo.Handle.Parent.{Parent}
use zigo.Handle.EventQueue as Queue
use zigo.Handle.EventQueue.{EventQueue}
use zigo.Handle.Stream as Streams
use zigo.Handle.Stream.{Stream}
use zigo.Handle.Stream.Calls.{queue_parent}
use zigo.Handle.BorrowBox as Box
use zigo.Handle.BorrowBox.{BorrowBox}
use zigo.Handle.BorrowChild as Child
use zigo.Handle.BorrowChild.{BorrowChild}
use zigo.Handle.BorrowView as View
use zigo.Handle.BorrowView.{Chain}
use zigo.Handle.BorrowView.Restoring.{Small, Undone, acquire-Undone}
use zigo.Handle.Terminal as Terminals
use zigo.Handle.Terminal.{Terminal}
use zigo.Handle.Lifecycle.{Lifecycle, Undoable, Laws}

-- A handle whose `Acquire` calls nothing out
abbrev pub quiet : {H : Type 0} → H × Result Pointer → H × Result Pointer × List Effect
quiet (h, answer) = (h, answer, [])

abbrev pub terminal : Lifecycle Terminal
terminal = record {
  acquire = λ operation t. quiet (Terminals.acquire operation t);
  release = Terminals.release;
  poison = Terminals.poison;
}

-- A dependent handle, together with the handle that it belongs to
abbrev pub stream : Lifecycle (Stream × EventQueue)
stream = record {
  acquire = λ operation (s, q). Streams.acquire queue_parent operation s q;
  release = λ (s, q). Streams.release queue_parent s q;
  poison = λ cause (s, q). Streams.poison queue_parent cause s q;
}

abbrev pub box_parent : Parent BorrowBox
box_parent = record {
  acquire = Box.acquire;
  release = Box.release;
  poison = Box.poison;
  acquire_child = Box.acquire_child;
  drop_child = Box.drop_child;
}

abbrev pub borrow_child : Lifecycle (BorrowChild × BorrowBox)
borrow_child = record {
  acquire = λ operation (c, b). Child.acquire box_parent operation c b;
  release = λ (c, b). Child.release box_parent c b;
  poison = λ cause (c, b). Child.poison box_parent cause c b;
}

-- A box, or a view with its owners
abbrev pub chain : Lifecycle Chain
chain = record { acquire = View.acquire; release = View.release; poison = View.poison }

pub terminal_laws : Laws terminal (λ t. t.active + 1 < word)
unfolding Terminals.acquire Terminals.release
terminal_laws = record { undoable = λ operation t room. ground arith }

pub stream_laws : Laws stream (λ (s, q). (s.active + 1 < word) × (q.active + 1 < word))
unfolding Streams.acquire Streams.release Streams.pin Streams.take_locked Queue.acquire
    Queue.release
stream_laws = record { undoable = λ operation (s, q) room. ground arith }

pub borrow_child_laws : Laws borrow_child (λ (c, b). (c.active + 1 < word) × (b.active + 1 < word))
unfolding Child.acquire Child.release Child.pin Child.take_locked Box.acquire Box.release
borrow_child_laws = record { undoable = λ operation (c, b) room. ground arith }

Undone-Undoable :
    (c : Chain) (answer : Chain × Result Pointer × List Effect)
    → Undone c answer
    → Undoable chain c answer
Undone-Undoable c (c', ok p, effects) u = u
Undone-Undoable c (c', err x, effects) u = u

pub chain_laws : Laws chain Small
chain_laws = record {
  undoable = λ operation c room. Undone-Undoable c _ (acquire-Undone operation c room);
}
