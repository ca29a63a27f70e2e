-- ===== src/Handle/EventQueue/Calls.antt =====
-- The methods of an `EventQueue` one at a time, on every branch.
use zigo.Prelude.{◌+◌, ◌≡◌, ◌⊎◌, true, false, none, [], String, word, ◌<◌, arith}
use zigo.Errors.{GoError, poisoned, is, is_sentinel, invalid_handle, native_panic}
use zigo.Handle.Common.{Pointer, is_nil, ok, err}
use zigo.Handle.EventQueue.{EventQueue, acquire, release, close, is_gone}

-- A call is refused exactly for one of two reasons, and the caller can tell them apart by
-- `errors.Is`: a closed or released handle gives `ErrInvalidHandle`, whether or not it is poisoned,
-- and an open poisoned one `ErrNativePanic`. A refused call leaves the handle as it was.
pub acquire_refused :
    (op : String) (e : EventQueue) {x : GoError}
    → (acquire op e).1 ≡ err x
    → ((acquire op e).0 ≡ e)
      × (((is_gone e ≡ true)
            × (is x (is_sentinel invalid_handle) ≡ true)
            × (is x (is_sentinel native_panic) ≡ false))
          ⊎ ((is_gone e ≡ false)
              × (is_nil e.poison ≡ false)
              × (is x (is_sentinel native_panic) ≡ true)
              × (is x (is_sentinel invalid_handle) ≡ false)))
unfolding acquire poisoned is
acquire_refused op e h = ground arith

-- A call that made its acquire and returns before anything else happens leaves the handle as it was
-- and calls nothing out, if fewer than 2 ^ 64 - 1 calls are inside.
pub release-acquire :
    (op : String) (e : EventQueue) {p : Pointer}
    → e.active + 1 < word
    → (acquire op e).1 ≡ ok p
    → release (acquire op e).0 ≡ (e, [])
unfolding acquire release
release-acquire op e small h = ground arith

-- A second `Close` changes nothing, calls nothing and reports no error, also while the first still
-- waits for calls to return.
pub close-close :
    (e : EventQueue) → (close e).1 ≡ none → close (close e).0 ≡ ((close e).0, none, [])
unfolding close
close-close e h = ground arith
