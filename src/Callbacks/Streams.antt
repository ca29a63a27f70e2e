-- ===== src/Callbacks/Streams.antt =====
-- The stream callbacks over the registry (raw_gen.go, lines 247-322): `readStream`, and the two
-- dispatchers that native code calls. The user's `io.Reader` and `io.Writer` are parameters.
pub mod Reading
pub mod Crossing
use zigo.Prelude.{
  ℕ, zero, suc, ◌+◌, ◌-◌, ◌%◌, ◌^◌, Bool, true, false, not, ◌&&◌, ◌||◌, Option, none, some,
  if◌then◌else◌, ◌==◌, ltb, leb,
}
use zigo.Prelude.Int.{ℤ, pos, negsuc}
use zigo.Errors.{GoError, PanicValue, sentinel, other}
use zigo.Handle.Common.{is_nil}
use zigo.Callbacks.{
  CallbackEntry, Callbacks, update, acquire_callback, release_callback, record_panic, record_err,
}

-- The package variables of `io` that the code names, and the test for `io.EOF`
abbrev pub eof : GoError
eof = sentinel (other 0)

abbrev pub short_buffer : GoError
short_buffer = sentinel (other 1)

abbrev pub no_progress : GoError
no_progress = sentinel (other 2)

abbrev pub short_write : GoError
short_write = sentinel (other 3)

abbrev pub is_eof : Option GoError → Bool
is_eof (some (sentinel (other zero))) = true
is_eof _ = false

-- What `readStream` makes of one `Read` into `len` bytes: a count out of range is a short buffer.
abbrev pub checked : ℕ → ℤ → Option GoError → ℕ × Option GoError
checked len (negsuc n) e = (0, some short_buffer)
checked len (pos n) e = if ltb len n then (0, some short_buffer) else (n, e)

-- `err != nil` keeps the error as the terminal one.
abbrev pub keep : Option GoError → Option GoError → Option GoError
keep terminal none = terminal
keep terminal (some e) = some e

-- The state of the reader, the count, the error and the terminal error that a read leaves
abbrev pub ReadResult {ℓ} : Type ℓ → Type ℓ
ReadResult R = R × ℕ × Option GoError × Option GoError

module _ {ℓ} {R : Type ℓ} (read : R → ℕ → R × ℤ × Option GoError) where
  -- The loop of `readStream`, with `left` attempts to go
  unfoldable pub attempts : ℕ → R → ℕ → Option GoError → ReadResult R
  attempts zero r len terminal = (r, 0, some no_progress, some no_progress)
  attempts (suc left) r len terminal =
      let (r', count, error) = read r len in
      let (n, e) = checked len count error in
      let again = attempts left r' len terminal in
      if not (n == 0) || not (is_nil e) then (r', n, e, keep terminal e) else again

  -- `readStream`
  unfoldable pub read_stream : R → ℕ → Option GoError → ReadResult R
  read_stream r len (some e) = (r, 0, some e, some e)
  read_stream r len none = attempts 100 r len none

-- `int32(n)`
abbrev pub to_int32 : ℕ → ℤ
to_int32 n = let low = n % 2 ^ 32 in if ltb low (2 ^ 31) then pos low else negsuc (2 ^ 32 - 1 - low)

-- What one call of the user's `Write` or of `readStream` did: it returned, or it panicked.
pub data Call : Type 0 where
  returned : ℤ → Option GoError → Call
  panicked : PanicValue → Call

-- The error of a `Write` of `len` bytes: a nil one with a wrong count is a short write.
abbrev pub write_error : ℕ → ℤ → Option GoError → Option GoError
write_error len n (some e) = some e
write_error len (pos n) none = if n == len then none else some short_write
write_error len (negsuc n) none = some short_write

-- The stream writer's dispatcher after `Write`: its deferred functions run last.
unfoldable pub after_write : ℕ → ℕ → Call → Callbacks → Callbacks × ℤ
after_write token len (panicked v) c = (release_callback token (record_panic token v c), negsuc 2)
after_write token len (returned n e) c = elim (write_error len n e) [
  | none ↦ (release_callback token c, pos 0)
  | some x ↦ (release_callback token (record_err token x c), negsuc 0)
]

abbrev entered : ℕ → ℕ → Call → Callbacks × Option (Option ℕ) → Callbacks × ℤ
entered token len call (c, none) = (c, negsuc 3)
entered token len call (c, some value) = after_write token len call c

-- The stream writer's dispatcher, when nothing else happens during `Write`
unfoldable pub stream_write : ℕ → ℕ → Call → Callbacks → Callbacks × ℤ
stream_write token len call c = entered token len call (acquire_callback token c)

abbrev pub record_read : ℕ → Option GoError → Callbacks → Callbacks
record_read token none c = c
record_read token (some e) c = if is_eof (some e) then c else record_err token e c

abbrev pub read_code : ℕ → Option GoError → ℤ
read_code n e = if ltb 0 n then to_int32 n else if is_eof e then pos 0 else negsuc 0

-- The stream reader's dispatcher after `readStream`, which left `terminal` behind
unfoldable pub after_read : ℕ → ℕ → Option GoError → Option GoError → Callbacks → Callbacks × ℤ
after_read token n e terminal c =
    let c' : Callbacks = record c {
      entries = update c.entries token (record (c.entries token) { read_terminal = terminal });
    } in
    (release_callback token (record_read token e c'), read_code n e)

module _ {ℓ} {R : Type ℓ} (read : R → ℕ → R × ℤ × Option GoError) where
  abbrev reading : ℕ → ℕ → R → Callbacks × Option (Option ℕ) → (R × Callbacks) × ℤ
  reading token len r (c, none) = ((r, c), negsuc 3)
  reading token len r (c, some value) =
      let (r', n, e, terminal) = read_stream read r len (c.entries token).read_terminal in
      let (c', code) = after_read token n e terminal c in ((r', c'), code)

  -- The stream reader's dispatcher, when `Read` does not panic and nothing else happens meanwhile. (A
  -- panic takes the same way out as in `after_write`.)
  unfoldable pub stream_read : ℕ → ℕ → R → Callbacks → (R × Callbacks) × ℤ
  stream_read token len r c = reading token len r (acquire_callback token c)
