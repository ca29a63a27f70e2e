-- ===== src/Session/Adopted.antt =====
-- The streams that a session closes, one after the other.
use native.Mathlib.Decide.{ℕ_discrete}
use mathlib.Core.List.{Mem, Memᴰ, Nodup, Nodup-cons, mem-cons_self, mem-cons_of_mem}
use zigo.Prelude.{
  ℕ, ◌<◌, ◌≡◌, ◌≢◌, refl, ap, sym, subst, ◌∙◌, true, false, none, List, [], ◌∷◌, ◌++◌, length,
  if◌then◌else◌, word, arith, ◌==◌, if_intro,
}
use zigo.Handle.Common.{Effect, is_nil, deinit_pointer}
use zigo.Handle.EventQueue as Queue
use zigo.Handle.EventQueue.{EventQueue}
use zigo.Handle.Stream as Streams
use zigo.Handle.Stream.{Stream}
use zigo.Handle.Stream.Calls.{queue_parent}
use zigo.Session.{Handles, update, close_stream, close_streams}

-- An open stream with no call inside.
abbrev pub IsIdle : Stream → Type 0
IsIdle s = (s.closed ≡ false) × (s.active ≡ 0) × (s.linked ≡ true) × (is_nil s.ptr ≡ false)

-- What closing an idle stream releases: nothing if a Zig panic poisoned it.
abbrev pub stream_release : Stream → List Effect
stream_release s = if is_nil s.poison then deinit_pointer s.ptr else []

abbrev pub stream_releases : (ℕ → Stream) → List ℕ → List Effect
stream_releases f [] = []
stream_releases f (i ∷ rest) = stream_release (f i) ++ stream_releases f rest

unfoldable pub closed_stream : Stream → Stream
closed_stream s = record s { closed = true; cleanup = none; ptr = none; linked = false }

unfoldable pub closed_one : ℕ → Handles → Handles
closed_one i h = record {
  queue = Queue.drop_child h.queue;
  streams = update h.streams i (closed_stream (h.streams i));
}

pub close-IsIdle :
    (s : Stream) (q : EventQueue)
    → IsIdle s
    → Streams.close queue_parent s q ≡ ((closed_stream s, Queue.drop_child q), stream_release s)
unfolding closed_stream Streams.close Streams.take_locked Streams.cleanup
close-IsIdle s q idle = ground arith

pub close_stream-IsIdle :
    (i : ℕ) (h : Handles)
    → IsIdle (h.streams i)
    → close_stream i h ≡ (closed_one i h, stream_release (h.streams i))
unfolding close_stream closed_one
close_stream-IsIdle i h idle = rw (close-IsIdle (h.streams i) h.queue idle)

unfoldable pub closed_all : List ℕ → Handles → Handles
closed_all [] h = h
closed_all (i ∷ rest) h = closed_all rest (closed_one i h)

pub untouched :
    (i : ℕ) (rest : List ℕ) (h : Handles)
    → Nodup (i ∷ rest)
    → (j : ℕ) → Mem j rest
    → (closed_one i h).streams j ≡ h.streams j
unfolding closed_one
untouched i rest h d j m =
    let ne : i ≢ j = λ e. (Nodup-cons.0 d).0 (subst (λ k. Mem k rest) (sym e) m) in ground arith

pub stream_releases-closed_one :
    (i : ℕ) (rest : List ℕ) (h : Handles)
    → ((j : ℕ) → Mem j rest → (closed_one i h).streams j ≡ h.streams j)
    → stream_releases (closed_one i h).streams rest ≡ stream_releases h.streams rest
stream_releases-closed_one i [] h same = refl
stream_releases-closed_one i (j ∷ rest) h same = rw (same j mem-cons_self) (
    ap (◌++◌ (stream_release (h.streams j)))
      (stream_releases-closed_one i rest h (λ k m. same k (mem-cons_of_mem j m))))

pub close_streams-IsIdle :
    (ids : List ℕ) (h : Handles)
    → Nodup ids
    → ((i : ℕ) → Mem i ids → IsIdle (h.streams i))
    → close_streams ids h ≡ (closed_all ids h, stream_releases h.streams ids)
unfolding close_streams closed_all
close_streams-IsIdle [] h d idle = refl
close_streams-IsIdle (i ∷ rest) h d idle =
    let kept = untouched i rest h d in
    rw (
      close_stream-IsIdle i h (idle i mem-cons_self),
      close_streams-IsIdle rest (closed_one i h) (Nodup-cons.0 d).1
          (λ j m. rw (kept j m) (idle j (mem-cons_of_mem i m))),
      stream_releases-closed_one i rest h kept,
    )

-- Closing them gives back one reservation for each.
pub closed_all-children :
    (ids : List ℕ) (h : Handles)
    → h.queue.children ≡ length ids
    → length ids < word
    → (closed_all ids h).queue ≡ record h.queue { children = 0 }
unfolding closed_all closed_one Queue.drop_child
closed_all-children [] h e small = ground arith
closed_all-children (i ∷ rest) h e small =
    closed_all-children rest (closed_one i h) (omega arith) (omega arith)

pub closed_all-not_mem :
    (ids : List ℕ) (h : Handles) (j : ℕ) → ¬ Mem j ids → (closed_all ids h).streams j ≡ h.streams j
unfolding closed_all closed_one
closed_all-not_mem [] h j out = refl
closed_all-not_mem (i ∷ rest) h j out =
    let ne : i ≢ j = λ e. out (subst (λ k. Mem j (k ∷ rest)) (sym e) mem-cons_self) in
    closed_all-not_mem rest (closed_one i h) j (λ m. out (mem-cons_of_mem i m)) ∙ ground arith

-- Every stream of the list is closed and has let its native object and its queue go.
abbrev pub IsLetGo : Stream → Type 0
IsLetGo s = (s.closed ≡ true) × (s.ptr ≡ none) × (s.linked ≡ false)

pub closed_all-IsLetGo :
    (ids : List ℕ) (h : Handles)
    → ((j : ℕ) → IsLetGo (h.streams j) → IsLetGo ((closed_all ids h).streams j))
unfolding closed_all closed_one closed_stream
closed_all-IsLetGo [] h j g = g
closed_all-IsLetGo (i ∷ rest) h j g =
    closed_all-IsLetGo rest (closed_one i h) j
      (if_intro IsLetGo (i == j) (λ _. (refl, refl, refl)) g)

pub closed_all-mem :
    (ids : List ℕ) (h : Handles) (j : ℕ) → Memᴰ j ids → IsLetGo ((closed_all ids h).streams j)
unfolding closed_all closed_one closed_stream
closed_all-mem [] h j m = elim m [ ]
closed_all-mem (i ∷ rest) h j (Memᴰ.head e) =
    closed_all-IsLetGo rest (closed_one i h) j
      (let same : (i == j) ≡ true = ground arith in rw same (refl, refl, refl))
closed_all-mem (i ∷ rest) h j (Memᴰ.tail m) = closed_all-mem rest (closed_one i h) j m

pub IsLetGo-prop : (s : Stream) → IsProp (IsLetGo s)
IsLetGo-prop s = hlevel ℕ_discrete
