-- ===== src/Callbacks/Deletion.antt =====
-- Dispatchers that use one token while `DeleteCallbackHandle` takes it away, as a sequence of critical
-- sections and atomic operations in any order. A dispatcher finds the entry and locks it in two steps, and
-- so does a deletion, so either may come between the two steps of the other.
use zigo.Prelude.{
  ℕ, zero, suc, ◌+◌, ◌≤◌, ◌<◌, ◌^◌, ◌≡◌, ◌⊎◌, Bool, true, false, Option, none, some, List, [], ◌∷◌,
  if◌then◌else◌, ltb,
}
use zigo.Callbacks.{
  Callbacks, enter_callback, release_callback, unregister, close_entry, finish_delete,
  count_deleted,
}

-- `found` counts the dispatchers that hold the entry of the registry and have not locked it, `users` those
-- between their acquire and their release; `taken` the deletions between `LoadAndDelete` and the lock,
-- `deleting` those that wait in the loop, and `ended` those that have unlocked and not counted the handle.
pub record Crossings : Type 0 where
  pub callbacks : Callbacks
  pub found : ℕ
  pub users : ℕ
  pub taken : ℕ
  pub deleting : ℕ
  pub ended : ℕ

-- A dispatcher finds, enters and leaves; a deletion takes, locks, wakes up if it waits, and counts.
pub data Action : Type 0 where
  finds enters leaves takes locks wakes counts : Action

abbrev limit : ℕ
limit = 2 ^ 63

entered : Crossings → ℕ → Callbacks × Option (Option ℕ) → Crossings
entered w n (c, none) = record w { found = n }
entered w n (c, some value) = record w { callbacks = c; found = n; users = suc w.users }

enter : ℕ → Crossings → ℕ → Crossings
unfolding entered
enter token w zero = w
enter token w (suc n) =
    if ltb (suc w.users) limit then entered w n (enter_callback token w.callbacks) else w

left : ℕ → Crossings → ℕ → Crossings
left token w zero = w
left token w (suc n) = record w { callbacks = release_callback token w.callbacks; users = n }

taken_away : Crossings → Callbacks × Bool → Crossings
taken_away w (c, false) = w
taken_away w (c, true) = record w { callbacks = c; taken = suc w.taken }

-- The loop is tested under the same lock.
locked : Crossings → ℕ → Callbacks → Option Callbacks → Crossings
locked w n c none = record w { callbacks = c; taken = n; deleting = suc w.deleting }
locked w n c (some c') = record w { callbacks = c'; taken = n; ended = suc w.ended }

lock : ℕ → Crossings → ℕ → Crossings
unfolding locked
lock token w zero = w
lock token w (suc n) = let c = close_entry token w.callbacks in locked w n c (finish_delete token c)

finished : Crossings → ℕ → Option Callbacks → Crossings
finished w (suc n) (some c) = record w { callbacks = c; deleting = n; ended = suc w.ended }
finished w _ _ = w

counted : Crossings → ℕ → Crossings
counted w zero = w
counted w (suc n) = record w { callbacks = count_deleted w.callbacks; ended = n }

unfoldable pub step : ℕ → Crossings → Action → Crossings
unfolding enter taken_away left lock finished counted
step token w finds = if w.callbacks.registered token then record w { found = suc w.found } else w
step token w enters = enter token w w.found
step token w leaves = left token w w.users
step token w takes = taken_away w (unregister token w.callbacks)
step token w locks = lock token w w.taken
step token w wakes = finished w w.deleting (finish_delete token w.callbacks)
step token w counts = counted w w.ended

unfoldable pub run : ℕ → Crossings → List Action → Crossings
run token w [] = w
run token w (a ∷ rest) = run token (step token w a) rest

record Inv (token value : ℕ) (w : Crossings) : Type 0 where
  count : (w.callbacks.entries token).active ≡ w.users
  bound : w.users < limit
  held : (0 < w.users) → (w.callbacks.entries token).value ≡ some value
  live :
      w.callbacks.registered token ≡ true
      → ((w.callbacks.entries token).closing ≡ false) × (w.taken ≡ 0) × (w.deleting ≡ 0)
  usable :
      (w.callbacks.entries token).closing ≡ false
      → ((w.callbacks.entries token).value ≡ some value) × (w.deleting ≡ 0)
  once : w.taken + w.deleting ≤ 1

abbrev pub start : Callbacks → Crossings
start c = record { callbacks = c; found = 0; users = 0; taken = 0; deleting = 0; ended = 0 }

-- The entry still has its value, or nobody can enter it any more.
abbrev pub UsableOrShut : ℕ → ℕ → Callbacks → Type 0
UsableOrShut token value c =
    ((c.entries token).value ≡ some value) ⊎ ((enter_callback token c).1 ≡ none)
