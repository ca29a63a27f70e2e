-- ===== src/Session.antt =====
-- `Session` (examples/07-event-queue/go/event_queue/event_queue_sessions_gen.go): an event queue and
-- the streams that it handed out, closed together.
-- A handle is an identity and its state lives in `Handles`, where every session and caller sees it:
-- one queue, and streams under numbers. Each method runs alone.
pub mod Adopted
pub mod Close
use zigo.Prelude.{
  ℕ, Bool, true, false, Option, none, some, List, [], ◌∷◌, ◌++◌, reverse, if◌then◌else◌, ◌==◌,
}
use zigo.Errors.{GoError, Errors, nil, cons, join_error}
use zigo.Handle.Common.{Effect}
use zigo.Handle.EventQueue as Queue
use zigo.Handle.EventQueue.{EventQueue}
use zigo.Handle.Stream as Streams
use zigo.Handle.Stream.{Stream}
use zigo.Handle.Stream.Calls.{queue_parent}

pub record Handles : Type 0 where
  pub queue : EventQueue
  pub streams : ℕ → Stream

abbrev pub update : (ℕ → Stream) → ℕ → Stream → ℕ → Stream
update f i s j = if i == j then s else f j

-- The mutex is not a field; `closed_once` is the state of `closeOnce`. `owns_queue` says that the
-- primary is not nil.
pub record Session : Type 0 where
  pub owns_queue : Bool
  pub streams : List ℕ
  pub closed : Bool
  pub closed_once : Bool
  pub close_err : Option GoError

-- `(*Stream).Close`, whose error is always nil
unfoldable pub close_stream : ℕ → Handles → Handles × List Effect
close_stream i h =
    let ((s, q), effects) = Streams.close queue_parent (h.streams i) h.queue in
    (record { queue = q; streams = update h.streams i s }, effects)

-- `(*EventQueue).Close`
unfoldable pub close_queue : Handles → Handles × Option GoError × List Effect
close_queue h =
    let (q, e, effects) = Queue.close h.queue in
    (record { queue = q; streams = h.streams }, e, effects)

-- `NewSession`; false for a nil primary
unfoldable pub new_session : Bool → Session
new_session owns_queue = record {
  owns_queue = owns_queue;
  streams = [];
  closed = false;
  closed_once = false;
  close_err = none;
}

adopt : Session → Handles → ℕ → Session × Handles × List Effect
adopt s h i =
    if s.closed
    then (let (h', effects) = close_stream i h in (s, h', effects))
    else (record s { streams = s.streams ++ (i ∷ []) }, h, [])

-- `AddStream`; `none` is a nil handle
unfoldable pub add_stream : Session → Handles → List (Option ℕ) → Session × Handles × List Effect
unfolding adopt
add_stream s h [] = (s, h, [])
add_stream s h (none ∷ rest) = add_stream s h rest
add_stream s h (some i ∷ rest) =
    let (s', h', effects) = adopt s h i in
    let (s'', h'', more) = add_stream s' h' rest in (s'', h'', effects ++ more)

-- The loop of `Close`, over the streams from the last to the first. `(*Stream).Close` returns no
-- error, so nothing is appended to `failures`.
unfoldable pub close_streams : List ℕ → Handles → Handles × List Effect
close_streams [] h = (h, [])
close_streams (i ∷ rest) h =
    let (h', effects) = close_stream i h in
    let (h'', more) = close_streams rest h' in (h'', effects ++ more)

-- `errors.Join` of the failures of the queue
abbrev join : Option GoError → Option GoError
join none = none
join (some e) = some (join_error (cons e nil))

close_primary : Bool → Handles → Handles × Option GoError × List Effect
close_primary false h = (h, none, [])
close_primary true h = close_queue h

-- `Close`
unfoldable pub close : Session → Handles → Session × Handles × Option GoError × List Effect
unfolding close_primary
close s h =
    if s.closed_once
    then (s, h, s.close_err, [])
    else let (h', effects) = close_streams (reverse s.streams) h in
      let (h'', failure, more) = close_primary s.owns_queue h' in
      (
        record s { streams = []; closed = true; closed_once = true; close_err = join failure },
        h'',
        join failure,
        effects ++ more,
      )
