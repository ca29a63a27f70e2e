-- ===== src/Tests/Handles.antt =====
-- Handles and sessions of event_queue_handles_gen.go and event_queue_sessions_gen.go.
use mathlib.Core.List.{Nodup, Nodup-cons, Nodup-nil, not-mem-nil}
use zigo.Prelude.{
  ℕ, ◌≡◌, ◌≤◌, inl, refl, true, none, some, List, [], ◌∷◌, ◌++◌, ◌+◌, reverse, if◌then◌else◌, arith,
}
use zigo.Errors.{NativePanicError}
use zigo.Handle.Common.{is_nil}
use zigo.Handle.EventQueue as Queue
use zigo.Handle.EventQueue.{EventQueue}
use zigo.Handle.EventQueue.Concurrent.{
  Action, enter, leave, closes, call_out, deinits, freed, run, step,
}
use zigo.Handle.EventQueue.Concurrent.Draining as Draining
use zigo.Handle.EventQueue.Concurrent.Invariant.{owed}
use zigo.Handle.EventQueue.Concurrent.Safety.{after, no_release_in_use, released_at_most_once}
use zigo.Handle.BorrowBox as Box
use zigo.Handle.BorrowBox.{BorrowBox}
use zigo.Handle.Stream as Streams
use zigo.Handle.Stream.{Stream}
use zigo.Session.{Handles, Session, new_session, add_stream, close}
use zigo.Session.Adopted.{IsIdle, stream_releases}
use zigo.Session.Close as SessionClose

abbrev slots : List ℕ
slots = 11 ∷ 0 ∷ 0 ∷ []

-- A call is inside when the queue is closed.
abbrev closed_inside : List Action
closed_inside = enter "EventQueue.Len" ∷ closes ∷ []

abbrev drained : List Action
drained = enter "EventQueue.Len" ∷ closes ∷ leave ∷ call_out ∷ []

no_release_in_use_example : freed (after 7 slots none closed_inside) ≡ 0
unfolding run step Queue.acquire Queue.new
no_release_in_use_example = no_release_in_use 7 slots none closed_inside (inl (omega arith))

released_at_most_once_example : freed (after 7 slots none drained) ≤ 1
released_at_most_once_example = released_at_most_once 7 slots none drained

-- The queue is open and a call is inside.
drained_lem_example :
    let w = after 7 slots none (enter "EventQueue.Len" ∷ []) in
    ((Draining.drained w).pending ≡ [])
    × (is_nil (Draining.drained w).handle.ptr ≡ true)
    × (deinits (Draining.drained w).done ≡ owed w.handle.poison)
unfolding run step Queue.acquire Queue.new
drained_lem_example = Draining.drained_lem 7 slots none (enter "EventQueue.Len" ∷ []) refl refl

abbrev open_queue : EventQueue
open_queue = Queue.new (some 7) slots none

abbrev cause : NativePanicError
cause = record { operation = "EventQueue.Process"; message = "index out of bounds" }

abbrev poisoned_queue : EventQueue
poisoned_queue = Queue.poison cause open_queue

abbrev open_stream : Stream
open_stream = Streams.new (some 21) none

abbrev parent_queue : EventQueue
parent_queue = record open_queue { children = 1 }

abbrev poisoned_parent : EventQueue
poisoned_parent = record poisoned_queue { children = 1 }

abbrev box : BorrowBox
box = record (Box.new (some 31) none) { children = 2 }

-- A queue with one stream, which a session adopted
abbrev handles : Handles
handles = record {
  queue = record open_queue { children = 1 };
  streams = λ i. Streams.new (some (100 + i)) none;
}

abbrev session : Session
session = (add_stream (new_session true) handles (some 0 ∷ none ∷ [])).0

distinct : Nodup {A = ℕ} (0 ∷ [])
distinct = Nodup-cons.1 (not-mem-nil, Nodup-nil)

idle : (i : ℕ) → IsIdle (handles.streams i)
unfolding Streams.new
idle i = (refl, refl, refl, refl)

close-releases_example :
    let (s', h', e, effects) = close session handles in
    (e ≡ none)
    × (effects
        ≡ stream_releases handles.streams (reverse session.streams)
          ++ Queue.cleanup (record {
            ptr = if is_nil handles.queue.poison then handles.queue.ptr else none;
            callback_handles = handles.queue.callback_handles;
            site = none;
          }))
    × (h'.queue.closed ≡ true)
    × (h'.queue.ptr ≡ none)
unfolding add_stream new_session Queue.new
close-releases_example =
    SessionClose.close-releases session handles distinct (λ i m. idle i) refl (omega arith) refl
      refl refl refl refl
