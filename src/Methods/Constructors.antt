-- ===== src/Methods/Constructors.antt =====
-- `NewEventQueue`, which owns a callback handle before there is a queue to hold it.
use zigo.Prelude.{
  ℕ, ◌+◌, ◌<◌, ◌≡◌, refl, sym, inl, inr, Bool-cases, true, false, Option, none, some, [], ◌∷◌, ◌++◌,
  String, if◌then◌else◌, ◌==◌, word, inc, arith,
}
use zigo.Prelude.Int.{ℤ, pos, ==ℤ}
use zigo.Errors.{GoError}
use zigo.Errors.Classify.{error_for_code}
use zigo.Handle.Common.{Pointer, is_nil, deinit_pointer, delete_callback_handle}
use zigo.Handle.EventQueue as Queue
use zigo.Methods.{
  Runtime, Native, Outcome, returns, fails, panics, delete_handle, new_handle, rethrow, sweep,
  is_success, created, new_event_queue,
}
use zigo.Methods.Observers.{sweep-Same}
use zigo.Methods.Panics.{raised, sweep-raised}

-- If the observer raised no panic, then `NewEventQueue` leaves one more active handle exactly if the
-- caller got a queue, whose first slot will hold it.
pub new_event_queue-active :
    (message : ℤ → String) (handle : ℕ) (native : Native) (s : Runtime)
    → 0 < handle
    → s.active + 1 < word
    → native.pending ≡ 0
    → let (s', outcome) = new_event_queue message (some handle) native s in
      s'.active ≡ (if is_success outcome then s.active + 1 else s.active)
unfolding new_event_queue sweep rethrow delete_handle
new_event_queue-active message handle native s h small quiet = ground arith

-- Who has the callback handle when `NewEventQueue`, called in `s`, has ended, and what the native side left
-- then: after a success the queue, whose `Close` releases the native object and deletes the handle; after a
-- failure nobody, since it is deleted; after the panic of the observer nobody has a queue to close, and the
-- handle is still active.
pub Creates :
    (ℤ → String) → Runtime → ℕ → Option String → Native → Runtime × Outcome Pointer → Type 0
Creates message s handle site native (s', returns p) =
    (raised "NewEventQueue" native (handle ∷ []) ≡ none)
    × (==ℤ native.code (pos 0) ≡ true)
    × (p ≡ native.pointer)
    × (s'.active ≡ s.active + 1)
    × ((Queue.close (Queue.new p (handle ∷ 0 ∷ 0 ∷ []) site)).2
        ≡ deinit_pointer p ++ delete_callback_handle handle)
Creates message s handle site native (s', fails e) =
    (raised "NewEventQueue" native (handle ∷ []) ≡ none)
    × (==ℤ native.code (pos 0) ≡ false)
    × (e ≡ error_for_code message "NewEventQueue" native.code)
    × (s'.active ≡ s.active)
Creates message s handle site native (s', panics e) =
    (raised "NewEventQueue" native (handle ∷ []) ≡ some e) × (s'.active ≡ s.active + 1)

close-new :
    (p : Pointer) (handle : ℕ) (site : Option String)
    → 0 < handle
    → is_nil p ≡ false
    → (Queue.close (Queue.new p (handle ∷ 0 ∷ 0 ∷ []) site)).2
      ≡ deinit_pointer p ++ delete_callback_handle handle
unfolding Queue.close Queue.take_locked Queue.new Queue.cleanup
close-new none handle site given made = ground arith
close-new (some p) handle site given made =
    let positive : (handle == 0) ≡ false = ground arith in rw positive refl

created-Creates :
    (message : ℤ → String) (handle : ℕ) (site : Option String) (native : Native) (s s' : Runtime)
    (panic : Option GoError)
    → raised "NewEventQueue" native (handle ∷ []) ≡ panic
    → 0 < handle
    → s.active + 1 < word
    → is_nil native.pointer ≡ false
    → s'.active ≡ inc s.active
    → Creates message s handle site native
        (created message "NewEventQueue" handle native (s', panic))
unfolding created delete_handle Creates
created-Creates message handle site native s s' (some e) r given room made more = (r, ground arith)
created-Creates message handle site native s s' none r given room made more =
    elim (Bool-cases (==ℤ native.code (pos 0))) [
      | inl z ↦ rw z (r, z, refl, ground arith, close-new native.pointer handle site given made)
      | inr z ↦ rw z (r, z, refl, ground arith)
    ]

-- `NewEventQueue` with an observer whose handle is not 0, when the native side does not hand out a nil
-- pointer. If the observer's panic is pending, the caller gets exactly this panic, as an error that names
-- `NewEventQueue`, and no queue, while the handle stays active. Without one it ends by the code: for 0 with
-- the native object, and the queue that is made of it has the handle and deletes it on `Close`; for any other
-- with the error of the code, and as many active handles as before.
pub new_event_queue-Creates :
    (message : ℤ → String) (handle : ℕ) (site : Option String) (native : Native) (s : Runtime)
    → 0 < handle
    → s.active + 1 < word
    → is_nil native.pointer ≡ false
    → Creates message s handle site native (new_event_queue message (some handle) native s)
unfolding new_event_queue
new_event_queue-Creates message handle site native s given room made =
    let entered = new_handle s in
    created-Creates message handle site native s
      (sweep "NewEventQueue" native (handle ∷ []) entered).0
      (sweep "NewEventQueue" native (handle ∷ []) entered).1
      (sym (sweep-raised "NewEventQueue" native (handle ∷ []) entered)) given room made
      (sweep-Same "NewEventQueue" native (handle ∷ []) entered).1
