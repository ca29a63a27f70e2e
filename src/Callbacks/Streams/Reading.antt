-- ===== src/Callbacks/Streams/Reading.antt =====
-- `readStream` over any reader.
use zigo.Prelude.{ℕ, zero, suc, ◌+◌, ◌≤◌, ◌≡◌, refl, false, Option, none, some, arith}
use zigo.Prelude.Int.{ℤ, pos, negsuc}
use zigo.Errors.{GoError}
use zigo.Handle.Common.{is_nil}
use zigo.Callbacks.Streams.{ReadResult, checked, attempts, read_stream}

-- `n <= len`, no bytes means an error, and the terminal error is the one returned, if any
abbrev pub Sound {ℓ} : {R : Type ℓ} → ℕ → ReadResult R → Type 0
Sound len (r, n, e, terminal) = (n ≤ len) × (n ≡ 0 → is_nil e ≡ false) × (terminal ≡ e)

checked_lem : (len : ℕ) (n : ℤ) (e : Option GoError) → (checked len n e).0 ≤ len
checked_lem len (pos n) e = ground arith
checked_lem len (negsuc n) e = ground arith

module _ {ℓ} {R : Type ℓ} (read : R → ℕ → R × ℤ × Option GoError) where
  attempts-Sound : (left : ℕ) (r : R) (len : ℕ) → Sound len (attempts read left r len none)
  unfolding attempts
  attempts-Sound zero r len = ground arith
  attempts-Sound (suc left) r len =
      let (r', n, e) = read r len in ground (arith, checked_lem len n e, attempts-Sound left r' len)

  -- `readStream` on a reader that has not ended: it returns at most as many bytes as the buffer has
  -- room for, whatever `Read` claimed; if it returns no byte, it returns an error; and that error, if
  -- any, is the one that it keeps for the calls to come.
  pub read_stream-Sound : (r : R) (len : ℕ) → Sound len (read_stream read r len none)
  unfolding read_stream
  read_stream-Sound = attempts-Sound 100

  -- The same reader, with a count of its calls
  abbrev pub counted : R × ℕ → ℕ → (R × ℕ) × ℤ × Option GoError
  counted (r, k) len = let (r', n, e) = read r len in ((r', suc k), n, e)

attempts-count {ℓ} :
    {R : Type ℓ} (read : R → ℕ → R × ℤ × Option GoError) (left : ℕ) (r : R) (k len : ℕ)
    → (attempts (counted read) left (r, k) len none).0.1 ≤ k + left
unfolding attempts
attempts-count read zero r k len = ground arith
attempts-count read (suc left) r k len =
    ground (arith, attempts-count read left (read r len).0 (suc k) len)

-- `readStream` calls `Read` at most 100 times, and not at all once a terminal error is kept, which it
-- then returns again.
pub read_stream-count {ℓ} :
    {R : Type ℓ} (read : R → ℕ → R × ℤ × Option GoError) (r : R) (k len : ℕ)
    → ((read_stream (counted read) (r, k) len none).0.1 ≤ k + 100)
      × ((e : GoError)
          → read_stream (counted read) (r, k) len (some e) ≡ ((r, k), 0, some e, some e))
unfolding read_stream
read_stream-count read r k len = (attempts-count read 100 r k len, λ e. refl)
