-- ===== src/Documents/Functions.antt =====
-- The functions that lend streams without a handle, `Banner` and `Tee`, and the methods without a stream
-- (examples/11-io-streams/go/streams/streams_gen.go).
use zigo.Prelude.{
  ℕ, ◌+◌, ◌<◌, ◌≡◌, refl, Bool, Option, none, some, ◌&&◌, List, String, if◌then◌else◌, inc, dec,
  word, arith,
}
use zigo.Prelude.Int.{ℤ, pos, ==ℤ}
use zigo.Errors.{GoError, PanicValue, callback_panic_error, stream_error, sentinel, nil_stream}
use zigo.Documents.Codes.{stream_error_for_code}
use zigo.Handle.Common.{is_nil, Pointer, Result, Effect}
use zigo.Handle.Lifecycle.{Lifecycle}
use zigo.Methods.{Outcome, returns, fails, panics}
use zigo.Methods.Plain.{Raw, plain}
use zigo.Documents.{Bytes, Crossed, taken, counted}

-- What is left behind one stream's handle
pub record Behind : Type 0 where
  pub panic : Option PanicValue
  pub failure : Option GoError

-- A native call that was lent two streams
pub record CrossedBoth (A : Type 0) : Type 0 where
  pub result : A
  pub code : ℤ
  pub pending : ℕ
  pub reader : Behind
  pub writer : Behind

module _ (panic_message : ℤ → String) where
  abbrev by_code : {A : Type 0} → String → A → ℤ → Outcome A
  by_code operation result code =
      if ==ℤ code (pos 0)
      then returns result
      else fails (stream_error_for_code panic_message operation code)

  -- The outcome of `Banner` after its native call
  unfoldable pub banner_outcome :
      Crossed (Unit {0}) → Option PanicValue → Option GoError → Outcome (Unit {0})
  banner_outcome native (some value) failure = panics (callback_panic_error "Banner" value)
  banner_outcome native none (some e) = fails (stream_error "Banner" "w" e)
  banner_outcome native none none = by_code "Banner" tt native.code

  -- `Banner`, with the count of active callback handles; `none` is a nil writer.
  unfoldable pub banner :
      {S : Type 0} → (S → Crossed (Unit {0})) → Option S → ℕ → ℕ × Outcome (Unit {0})
  unfolding banner_outcome
  banner native none active = (active, fails (stream_error "Banner" "w" (sentinel nil_stream)))
  banner native (some w) active =
      let answer = native w in
      (dec (inc active), banner_outcome answer (taken answer.pending answer.panic) answer.failure)

  -- The errors of the two streams, the reader's first, then the code
  unfoldable pub tee_failures : CrossedBoth ℕ → Option GoError → Option GoError → Outcome ℕ
  tee_failures native (some e) of_writer = fails (stream_error "Tee" "r" e)
  tee_failures native none (some e) = fails (stream_error "Tee" "w" e)
  tee_failures native none none = by_code "Tee" native.result native.code

  -- The panics of the two streams, the reader's first
  unfoldable pub tee_outcome : CrossedBoth ℕ → Option PanicValue → Option PanicValue → Outcome ℕ
  unfolding tee_failures
  tee_outcome native (some value) of_writer = panics (callback_panic_error "Tee" value)
  tee_outcome native none (some value) = panics (callback_panic_error "Tee" value)
  tee_outcome native none none = tee_failures native native.reader.failure native.writer.failure

  -- `Tee`
  unfoldable pub tee :
      {R W : Type 0} → (R → W → CrossedBoth ℕ) → Option R → Option W → ℕ → ℕ × Outcome ℕ
  unfolding tee_outcome
  tee native none w active = (active, fails (stream_error "Tee" "r" (sentinel nil_stream)))
  tee native (some r) none active = (active, fails (stream_error "Tee" "w" (sentinel nil_stream)))
  tee native (some r) (some w) active =
      let answer = native r w in
      (
        dec (dec (inc (inc active))),
        tee_outcome answer (taken answer.pending answer.reader.panic)
            (taken answer.pending answer.writer.panic),
      )

-- The call ended without a panic, a stream's error or a code.
abbrev pub is_clean : CrossedBoth ℕ → Bool
is_clean answer =
    is_nil (taken answer.pending answer.reader.panic)
    && (is_nil (taken answer.pending answer.writer.panic)
        && (is_nil answer.reader.failure
            && (is_nil answer.writer.failure && ==ℤ answer.code (pos 0))))

abbrev pub result_of : {A : Type 0} → Outcome A → Option A
result_of (returns a) = some a
result_of _ = none

tee_outcome-is_clean :
    (message : ℤ → String) (answer : CrossedBoth ℕ) (p q : Option PanicValue) (e f : Option GoError)
    → answer.reader.failure ≡ e
    → answer.writer.failure ≡ f
    → result_of (tee_outcome message answer p q) ≡ (
        if is_nil p && (is_nil q && (is_nil e && (is_nil f && ==ℤ answer.code (pos 0))))
        then some answer.result
        else none)
unfolding tee_outcome tee_failures
tee_outcome-is_clean message answer p q e f h k = ground arith

-- `Tee` of two streams returns a count exactly when neither stream panicked or failed and the native side
-- reported no error, and then the native count. However it ends, also for a nil stream, as many
-- callback handles are active as before, which are fewer than 2 ^ 64 - 1.
pub tee-is_clean :
    {R W : Type 0} (message : ℤ → String) (native : R → W → CrossedBoth ℕ) (r : R) (w : W)
    (active : ℕ)
    → active + 1 < word
    → (result_of (tee message native (some r) (some w) active).1
        ≡ (if is_clean (native r w) then some (native r w).result else none))
      × ((tee message native (some r) (some w) active).0 ≡ active)
      × (tee message native (some r) none active
          ≡ (active, fails (stream_error "Tee" "w" (sentinel nil_stream))))
      × (tee message native none (some w) active
          ≡ (active, fails (stream_error "Tee" "r" (sentinel nil_stream))))
unfolding tee
tee-is_clean message native r w active small =
    let answer = native r w in
    (tee_outcome-is_clean message answer _ _ _ _ refl refl, omega arith, refl, refl)

module _ {H : Type 0} (panic_message : ℤ → String) (l : Lifecycle H) where
  -- `Document.AppendString`
  unfoldable pub append_string :
      (String → Pointer → Raw (Unit {0})) → String → H → H × Result (Unit {0}) × List Effect
  append_string native text =
      plain panic_message l "Document.AppendString" " receiver" (native text) (λ u. u)

  -- `Document.Count`
  unfoldable pub document_count : (Pointer → Raw ℕ) → H → H × Result ℕ × List Effect
  document_count native = plain panic_message l "Document.Count" " receiver" native (λ n. n)

  -- `Sink.Flush`
  unfoldable pub sink_flush : (Pointer → Raw (Unit {0})) → H → H × Result (Unit {0}) × List Effect
  sink_flush native = plain panic_message l "Sink.Flush" " receiver" native (λ u. u)

  -- `Sink.Count`
  unfoldable pub sink_count : (Pointer → Raw ℕ) → H → H × Result ℕ × List Effect
  sink_count native = plain panic_message l "Sink.Count" " receiver" native (λ n. n)

  -- `Sink.zigoCheckedPush`
  unfoldable pub checked_push :
      (Bytes → Pointer → Raw (Unit {0})) → Bytes → H → H × Result (Unit {0}) × List Effect
  checked_push native bytes = plain panic_message l "Sink.Push" " receiver" (native bytes) (λ u. u)

  -- `Sink.WriteString`, of the bytes of the string
  unfoldable pub sink_write_string :
      (Bytes → Pointer → Raw (Unit {0})) → Bytes → H → H × ℕ × Option GoError × List Effect
  sink_write_string native str h = counted panic_message l str (checked_push native str h)
