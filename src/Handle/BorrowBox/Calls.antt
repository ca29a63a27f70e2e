-- ===== src/Handle/BorrowBox/Calls.antt =====
-- The methods of a `BorrowBox` in sequence.
use zigo.Prelude.{ℕ, ◌≡◌, ◌≢◌, ◌⊎◌, true, false, none, some, arith}
use zigo.Errors.{GoError, is, is_sentinel, handle_in_use}
use zigo.Handle.BorrowBox.{BorrowBox, cleanup, close}

-- `Close` on an open box either is refused with an error that matches `ErrHandleInUse` and leaves the
-- box as it was, or it runs the cleanup there and then: no release is left for a later call to make.
pub close_at_once :
    (b : BorrowBox) {p : ℕ}
    → b.closed ≡ false
    → b.ptr ≡ some p
    → let r = close b in
      ((x : GoError) × (r.1 ≡ some x)
        × (is x (is_sentinel handle_in_use) ≡ true)
        × (r.0 ≡ b)
        × ((b.children ≢ 0) ⊎ (b.active ≢ 0)))
      ⊎ ((r.1 ≡ none)
          × (b.children ≡ 0)
          × (b.active ≡ 0)
          × (r.0.ptr ≡ none)
          × ((b.poison ≡ none) × (r.2 ≡ cleanup (record { ptr = some p; site = none }))
              ⊎ (b.poison ≢ none) × (r.2 ≡ cleanup (record { ptr = none; site = none }))))
unfolding close is
close_at_once b o here = ground arith
