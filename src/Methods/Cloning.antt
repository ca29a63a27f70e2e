-- ===== src/Methods/Cloning.antt =====
-- `Clone` (event_queue_gen.go, lines 52-77): a queue made of another one, with an observer of its own.
use zigo.Prelude.{
  ℕ, ◌+◌, ◌<◌, ◌≡◌, ◌∙◌, refl, false, Option, none, some, List, [], ◌∷◌, String, if◌then◌else◌,
  word, inc, dec, dec-inc, if_cases, arith,
}
use zigo.Prelude.Int.{ℤ, pos, ==ℤ}
use zigo.Errors.{GoError, callback_error, sentinel, nil_callback}
use zigo.Errors.Classify.{error_for_code}
use zigo.Handle.Common.{Pointer, ok, err, Effect, deinit, delete_callback}
use zigo.Handle.EventQueue as Queue
use zigo.Handle.EventQueue.{EventQueue}
use zigo.Methods.{
  Runtime, Native, Outcome, returns, fails, panics, slots, sweep, released, failed, new_handle,
  delete_handle, is_success,
}
use zigo.Methods.Observers.{IsCallable, IsPoisoning, poison_after_panic-IsPoisoning}

module _ (panic_message : ℤ → String) where
  unfoldable pub cloned :
      ℕ → Option String → Native → Runtime × Option GoError → Runtime × Outcome EventQueue
  cloned handle site native (s, some e) = (released s, panics e)
  cloned handle site native (s, none) =
      if ==ℤ native.code (pos 0)
      then (released s, returns (Queue.new native.pointer (0 ∷ handle ∷ 0 ∷ []) site))
      else (
        released (delete_handle handle (failed panic_message "EventQueue.Clone" native.code s)),
        fails (error_for_code panic_message "EventQueue.Clone" native.code),
      )

  -- `Clone`; `none` is a nil observer, and `some handle` the handle made for it
  unfoldable pub clone_queue :
      Option ℕ → Option String → Native → Runtime → Runtime × Outcome EventQueue
  clone_queue observer site native s =
      let (queue, acquired) = Queue.acquire "EventQueue.Clone receiver" s.queue in
      let entered : Runtime = record s { queue = queue } in
      elim acquired [
        | err e ↦ (s, fails e)
        | ok p ↦ elim observer [
          | none ↦ (
            released entered,
            fails (callback_error "EventQueue.Clone" "observer" (sentinel nil_callback)),
          )
          | some handle ↦
              cloned handle site native
                (sweep "EventQueue.Clone" native (handle ∷ slots queue) (new_handle entered))
        ]
      ]

-- What `Close` of the queue that the caller got calls out
abbrev pub closing : Outcome EventQueue → List Effect
closing (returns e) = (Queue.close e).2
closing _ = []

-- The state right after the native call, when no callback raised a panic
abbrev entered : Native → Runtime → Runtime
entered native s = record {
  queue = record s.queue { active = inc s.queue.active };
  active = inc s.active;
  recorded = native.recorded;
}

clone_queue-enters :
    (message : ℤ → String) (handle : ℕ) (site : Option String) (native : Native) (s : Runtime)
    → IsCallable s.queue
    → native.pending ≡ 0
    → clone_queue message (some handle) site native s
      ≡ cloned message handle site native (entered native s, none)
unfolding clone_queue Queue.acquire sweep
clone_queue-enters message handle site native s callable quiet = ground arith

-- What the calls that the end of a method defers leave of an open queue
abbrev Left : Runtime → ℕ → Runtime → Type 0
Left s active s' =
    (s'.active ≡ active)
    × (s'.queue.active ≡ dec s.queue.active)
    × (s'.queue.ptr ≡ s.queue.ptr)
    × (s'.queue.callback_handles ≡ s.queue.callback_handles)

released-Left : (s : Runtime) → s.queue.closed ≡ false → Left s s.active (released s)
unfolding released Queue.release Queue.take_locked
released-Left s o = ground arith

delete_handle-active :
    (handle : ℕ) (s : Runtime)
    → 0 < handle
    → delete_handle handle s ≡ record s { active = dec s.active }
unfolding delete_handle
delete_handle-active handle s small = ground arith

refused-Left :
    (message : ℤ → String) (handle : ℕ) (code : ℤ) (s : Runtime)
    → 0 < handle
    → s.queue.closed ≡ false
    → Left s
        (dec s.active)
        (released (delete_handle handle (failed message "EventQueue.Clone" code s)))
unfolding failed IsPoisoning
refused-Left message handle code s small o =
    let same =
      poison_after_panic-IsPoisoning (error_for_code message "EventQueue.Clone" code) s.queue in
    let poisoned = failed message "EventQueue.Clone" code s in
    let after : Runtime = record poisoned { active = dec poisoned.active } in
    let left = released-Left after (ground (arith, same)) in
    rw (delete_handle-active handle poisoned small) (
      left.0,
      ground (arith, same, left.1),
      ground (arith, same, left.2),
      ground (arith, same, left.3),
    )

closing-new :
    (handle p : ℕ) (pointer : Pointer) (site : Option String)
    → 0 < handle
    → pointer ≡ some p
    → closing (returns (Queue.new pointer (0 ∷ handle ∷ 0 ∷ []) site))
      ≡ deinit p ∷ delete_callback handle ∷ []
unfolding Queue.new Queue.close Queue.cleanup
closing-new handle p pointer site small here = ground arith

abbrev IsOwned : ℕ → ℕ → Runtime → Runtime × Outcome EventQueue → Type 0
IsOwned handle p s (s', outcome) =
    Left s (if is_success outcome then s.active else dec s.active) s'
    × (closing outcome
        ≡ (if is_success outcome then deinit p ∷ delete_callback handle ∷ [] else []))

cloned-IsOwned :
    (message : ℤ → String) (handle p : ℕ) (site : Option String) (native : Native) (s : Runtime)
    → 0 < handle
    → s.queue.closed ≡ false
    → native.pointer ≡ some p
    → IsOwned handle p s (cloned message handle site native (s, none))
unfolding cloned
cloned-IsOwned message handle p site native s small o here =
    if_cases (IsOwned handle p s) (==ℤ native.code (pos 0))
      (λ is_zero. (released-Left s o, closing-new handle p native.pointer site small here))
      (λ is_other. (refused-Left message handle native.code s small o, refl))

-- `Clone` of an open, unpoisoned queue whose callbacks and new observer raise no panic: there is one more
-- active callback handle exactly if the caller got a queue, the cloned queue's own calls, native object
-- and callbacks are as before, and `Close` of the new queue releases its native object and deletes the new
-- observer's handle, and nothing else.
pub clone_queue-close :
    (message : ℤ → String) (handle p : ℕ) (site : Option String) (native : Native) (s : Runtime)
    → IsCallable s.queue
    → 0 < handle
    → s.active + 1 < word
    → native.pending ≡ 0
    → native.pointer ≡ some p
    → let (s', outcome) = clone_queue message (some handle) site native s in
      (s'.active ≡ (if is_success outcome then s.active + 1 else s.active))
      × (s'.queue.active ≡ s.queue.active)
      × (s'.queue.ptr ≡ s.queue.ptr)
      × (s'.queue.callback_handles ≡ s.queue.callback_handles)
      × (closing outcome
          ≡ (if is_success outcome then deinit p ∷ delete_callback handle ∷ [] else []))
clone_queue-close message handle p site native s callable small room quiet here =
    let kept : IsOwned handle p (entered native s)
        (cloned message handle site native (entered native s, none)) =
      cloned-IsOwned message handle p site native (entered native s) small callable.0 here in
    rw (clone_queue-enters message handle site native s callable quiet) (
      ground (arith, kept.0.0, room),
      kept.0.1 ∙ dec-inc s.queue.active (omega (arith, callable.3)),
      kept.0.2,
      kept.0.3,
      kept.1,
    )
