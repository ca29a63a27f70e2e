-- ===== src/Callbacks/Streams/Crossing.antt =====
-- The dispatchers of streams, and what the generated caller finds in the registry afterwards.
use zigo.Prelude.{
  ℕ, ◌≤◌, ◌<◌, ◌^◌, ◌≡◌, ◌↔◌, true, false, Option, none, some, inc, word, arith, if◌then◌else◌, ltb,
}
use zigo.Prelude.Int.{ℤ, pos, negsuc}
use zigo.Errors.{GoError, PanicValue}
use zigo.Handle.Common.{is_nil}
use zigo.Callbacks.{
  Callbacks, acquire_callback, release_callback, record_panic, record_err, take_stream_error,
  take_callback_panic,
}
use zigo.Callbacks.Streams.Reading.{read_stream-Sound}
use zigo.Callbacks.Streams.{
  read_stream, stream_read, after_read, read_code, is_eof, Call, returned, panicked, write_error,
  stream_write, after_write,
}

-- The code that native code gets from the stream writer: 0 exactly when `Write` took all the bytes and
-- reported no error, -4 exactly when the token is gone.
pub stream_write-code :
    (token len : ℕ) (call : Call) (c : Callbacks)
    → (((stream_write token len call c).1 ≡ negsuc 3)
        ↔ (is_nil (acquire_callback token c).1 ≡ true))
      × (((stream_write token len call c).1 ≡ pos 0)
          ↔ ((is_nil (acquire_callback token c).1 ≡ false) × (call ≡ returned (pos len) none)))
unfolding stream_write after_write acquire_callback
stream_write-code token len call c = ground arith

-- A failed `Write` on a live token that kept no error yet: native code gets -1, and then
-- `TakeStreamError` hands the caller that error, once.
pub stream_write-take_stream_error :
    (token len : ℕ) (n : ℤ) (e : Option GoError) {x : GoError} (c : Callbacks)
    → c.registered token ≡ true
    → (c.entries token).closing ≡ false
    → (c.entries token).go_err ≡ none
    → write_error len n e ≡ some x
    → let (c', code) = stream_write token len (returned n e) c in
      (code ≡ negsuc 0)
      × ((take_stream_error token c').1 ≡ some x)
      × ((take_stream_error token (take_stream_error token c').0).1 ≡ none)
unfolding stream_write after_write acquire_callback record_err release_callback take_stream_error
stream_write-take_stream_error token len n e c reg live empty fails = ground arith

-- A `Write` that panics on a live token with no panic recorded: native code gets -3, one more panic is
-- pending, and `TakeCallbackPanic` hands the caller its value and leaves none pending for it.
pub stream_write-take_callback_panic :
    (token len : ℕ) (v : PanicValue) (c : Callbacks)
    → c.registered token ≡ true
    → (c.entries token).closing ≡ false
    → (c.entries token).panicked ≡ false
    → c.pending < word
    → let (c', code) = stream_write token len (panicked v) c in
      (code ≡ negsuc 2)
      × (c'.pending ≡ inc c.pending)
      × ((take_callback_panic token c').1 ≡ some (some v))
      × ((take_callback_panic token c').0.pending ≡ c.pending)
unfolding stream_write after_write acquire_callback record_panic release_callback
    take_callback_panic
stream_write-take_callback_panic token len v c reg live fresh small = ground arith

read_code-lt :
    (n len : ℕ) (e : Option GoError)
    → n ≤ len
    → len < 2 ^ 31
    → read_code n e ≡ (if ltb 0 n then pos n else if is_eof e then pos 0 else negsuc 0)
read_code-lt n len e h small = ground arith

-- The stream reader on a live token whose stream has not ended, with a buffer shorter than 2 ^ 31: the
-- code is the number of bytes read if there are any, 0 at the end of the stream, and -1 after an error;
-- an error that is not the end of the stream waits for `TakeStreamError`, and any error is what the
-- entry returns from then on.
pub stream_read-code {ℓ} :
    {R : Type ℓ} (read : R → ℕ → R × ℤ × Option GoError) (token len : ℕ) (r : R) (c : Callbacks)
    → c.registered token ≡ true
    → (c.entries token).closing ≡ false
    → (c.entries token).go_err ≡ none
    → (c.entries token).read_terminal ≡ none
    → len < 2 ^ 31
    → let (r', n, e, terminal) = read_stream read r len none in
      let ((r'', c'), code) = stream_read read token len r c in
      (code ≡ (if ltb 0 n then pos n else if is_eof e then pos 0 else negsuc 0))
      × ((take_stream_error token c').1 ≡ (if is_eof e then none else e))
      × ((c'.entries token).read_terminal ≡ e)
unfolding stream_read after_read acquire_callback record_err release_callback take_stream_error
stream_read-code read token len r c reg live empty fresh small =
    let sound = read_stream-Sound read r len in
    let code =
      read_code-lt (read_stream read r len none).1 len (read_stream read r len none).2 sound.0
        small in
    ground (arith, sound, code)
