-- ===== src/Handle/Stream/Calls.antt =====
-- A `Stream` with the `EventQueue` that made it.
use zigo.Prelude.{◌+◌, ◌≡◌, ◌<◌, true, false, [], String, word, arith}
use zigo.Errors.{GoError}
use zigo.Handle.Common.{Pointer, is_nil, ok, err}
use zigo.Handle.Parent.{Parent}
use zigo.Handle.EventQueue as Queue
use zigo.Handle.EventQueue.{EventQueue}
use zigo.Handle.Stream.{Stream, acquire, release, pin, take_locked}

-- What the lifecycle package finds registered for `*EventQueue`
abbrev pub queue_parent : Parent EventQueue
queue_parent = record {
  acquire = Queue.acquire;
  release = Queue.release;
  poison = Queue.poison;
  acquire_child = Queue.acquire_child;
  drop_child = Queue.drop_child;
}

-- A refused call leaves the stream and its queue as they were and releases nothing: the pin that
-- it took on the queue is given back. Fewer than 2 ^ 64 - 1 calls are inside the queue.
pub acquire_refused_restores :
    (op : String) (s : Stream) (q : EventQueue) {x : GoError}
    → q.active + 1 < word
    → (acquire queue_parent op s q).1 ≡ err x
    → ((acquire queue_parent op s q).0 ≡ (s, q)) × ((acquire queue_parent op s q).2 ≡ [])
unfolding acquire pin Queue.acquire Queue.release
acquire_refused_restores op s q small h = ground arith

-- A call on a linked stream gets in exactly when the queue and the stream are both open and not
-- poisoned; when it returns, with nothing else between, both are as they were and nothing is released.
pub release-acquire_linked :
    (op : String) (s : Stream) (q : EventQueue) {p : Pointer}
    → q.active + 1 < word
    → s.active + 1 < word
    → s.linked ≡ true
    → (acquire queue_parent op s q).1 ≡ ok p
    → let (s', q') = (acquire queue_parent op s q).0 in
      (release queue_parent s' q' ≡ ((s, q), []))
      × (q.closed ≡ false)
      × (s.closed ≡ false)
      × (is_nil q.poison ≡ true)
      × (is_nil s.poison ≡ true)
unfolding acquire release pin take_locked Queue.acquire Queue.release
release-acquire_linked op s q small small' linked h = ground arith
