-- ===== src/Session/Close.antt =====
-- What closing a session does to the handles that it owns.
use mathlib.Core.List.Perm
use mathlib.Core.Logic.{∥∥₁_elim}
use mathlib.Core.List.{reverse_perm, Mem, Nodup, mem-reverse}
use zigo.Prelude.{
  ℕ, ◌<◌, ◌≡◌, refl, sym, ◌∙◌, Bool, true, false, none, some, [], ◌∷◌, ◌++◌, reverse, length,
  length-reverse, if◌then◌else◌, word, arith,
}
use zigo.Handle.Common.{is_nil}
use zigo.Handle.EventQueue as Queue
use zigo.Handle.EventQueue.{EventQueue}
use zigo.Session.{Session, Handles, close_queue, close_streams, close_primary, close, add_stream}
use zigo.Session.Adopted.{
  IsIdle, stream_release, stream_releases, closed_stream, closed_one, closed_all,
  close_stream-IsIdle, close_streams-IsIdle, closed_all-children, IsLetGo, closed_all-mem,
  IsLetGo-prop,
}

streams-close_primary : (owns : Bool) (h : Handles) → (close_primary owns h).0.streams ≡ h.streams
unfolding close_primary close_queue
streams-close_primary true h = refl
streams-close_primary false h = refl

module _ (s : Session) (h : Handles) (distinct : Nodup s.streams)
    (idle : (i : ℕ) → Mem i s.streams → IsIdle (h.streams i))
    (count : h.queue.children ≡ length s.streams) (small : length s.streams < word) where
  closed_streams :
      close_streams (reverse s.streams) h
      ≡ (closed_all (reverse s.streams) h, stream_releases h.streams (reverse s.streams))
  closed_streams =
      close_streams-IsIdle (reverse s.streams) h
        (Perm.nodup (Perm.symm (reverse_perm s.streams)) distinct) (λ i m. idle i (mem-reverse.0 m))

  queue_left : (closed_all (reverse s.streams) h).queue ≡ record h.queue { children = 0 }
  queue_left =
      closed_all-children (reverse s.streams) h (count ∙ sym (length-reverse s.streams))
        (rw (length-reverse s.streams) small)

  -- `Close`, for the first time, on a session whose queue is open, with no call inside and no
  -- child but the adopted streams, which are distinct and idle: it reports no error; each
  -- adopted stream's native object is released, the last adopted first, and then the queue's
  -- with its callbacks; and the queue ends closed, with no pointer. An object that a Zig panic
  -- poisoned is left out.
  pub close-releases :
      s.closed_once ≡ false
      → s.owns_queue ≡ true
      → h.queue.closed ≡ false
      → h.queue.active ≡ 0
      → is_nil h.queue.ptr ≡ false
      → let (s', h', e, effects) = close s h in
        (e ≡ none)
        × (effects
            ≡ stream_releases h.streams (reverse s.streams)
              ++ Queue.cleanup (record {
                ptr = if is_nil h.queue.poison then h.queue.ptr else none;
                callback_handles = h.queue.callback_handles;
                site = none;
              }))
        × (h'.queue.closed ≡ true)
        × (h'.queue.ptr ≡ none)
  unfolding close close_queue Queue.close Queue.take_locked
  close-releases once owns o quiet p = ground (arith, closed_streams, queue_left)

  -- After that `Close`, whatever state the queue was in, each adopted stream is closed, holds no
  -- native pointer and no longer belongs to the queue.
  pub close-IsLetGo :
      s.closed_once ≡ false → (j : ℕ) → Mem j s.streams → IsLetGo ((close s h).1.streams j)
  unfolding close close_queue
  close-IsLetGo once j m =
      let let_go : IsLetGo ((closed_all (reverse s.streams) h).streams j) =
        ∥∥₁_elim (mem-reverse.1 m) (IsLetGo-prop ((closed_all (reverse s.streams) h).streams j))
          (closed_all-mem (reverse s.streams) h j) in
      rw (once, close, closed_streams, streams-close_primary s.owns_queue) let_go

-- `Close` again, whatever has happened to the handles in between: nothing is called and nothing
-- changes, and the first result is returned.
pub close-close_later :
    (s : Session) (h later : Handles)
    → close (close s h).0 later ≡ ((close s h).0, later, (close (close s h).0 h).2, [])
unfolding close
close-close_later s h later = ground arith

-- A stream that is adopted after `Close` is closed at once, and the session does not keep it.
pub add_stream-closed :
    (s : Session) (h : Handles) (i : ℕ)
    → s.closed ≡ true
    → IsIdle (h.streams i)
    → let (s', h', effects) = add_stream s h (some i ∷ []) in
      (s' ≡ s) × IsLetGo (h'.streams i) × (effects ≡ stream_release (h.streams i) ++ [])
unfolding add_stream closed_one closed_stream
add_stream-closed s h i c idle = ground (arith, close_stream-IsIdle i h idle)
