-- ===== src/Documents.antt =====
-- The methods that satisfy the interfaces of package io
-- (examples/11-io-streams/go/streams/streams_gen.go, lines 35-300, with streams_runtime_gen.go): of
-- `Document`, `Sink` and `Source`.
-- The handle is behind the interface of Handle.Lifecycle, and each method runs with no other goroutine at
-- it. The native side is a parameter. For a call that is lent a reader or a writer it gives the code
-- with what the stream's dispatchers left behind its callback handle.
pub mod Contracts
pub mod Counting
pub mod Functions
pub mod Codes
pub mod Codepoints
use zigo.Prelude.{
  ℕ, ◌+◌, ◌^◌, ◌%◌, Bool, true, false, Option, none, some, List, [], ◌∷◌, String, ◌<>◌,
  if◌then◌else◌, ◌==◌, ltb, length, inc, dec, ◌&&◌,
}
use zigo.Prelude.Int.{ℤ, pos, ==ℤ}
use zigo.Errors.{
  GoError, PanicValue, callback_panic_error, stream_error, sentinel, nil_stream, other,
}
use zigo.Errors.Classify.{poison_after_panic}
use zigo.Documents.Codes.{stream_error_for_code}
use zigo.Handle.Common.{Pointer, Result, ok, err, Effect}
use zigo.Handle.Lifecycle.{Lifecycle}
use zigo.Methods.{Outcome, returns, fails, panics}
use zigo.Methods.Plain.{Raw, plain}

abbrev pub Bytes : Type 0
Bytes = List ℕ

-- `pending` is `raw.PendingCallbackPanics()`; `panic` and `failure` are what `TakeCallbackPanic` and
-- `TakeStreamError` find behind the stream's handle.
pub record Crossed (A : Type 0) : Type 0 where
  pub result : A
  pub code : ℤ
  pub pending : ℕ
  pub panic : Option PanicValue
  pub failure : Option GoError

-- `active` is `zigoActiveCallbackHandles`.
pub record Holder (H : Type 0) : Type 0 where
  pub handle : H
  pub active : ℕ  -- atomic.Int64

-- How a method ends, once the deferred calls have run
abbrev pub ended :
    {H A : Type 0} → Outcome A → Holder H × List Effect → Holder H × Outcome A × List Effect
ended outcome (s, effects) = (s, outcome, effects)

-- The panic is looked for only if some callback's panic is pending.
abbrev pub taken : ℕ → Option PanicValue → Option PanicValue
taken pending panic = if pending == 0 then none else panic

module _ {H : Type 0} (panic_message : ℤ → String) (l : Lifecycle H) where
  -- The deferred calls: the stream's handle is deleted, and the receiver let go.
  unfoldable pub let_go : Holder H → Holder H × List Effect
  let_go s =
      let (h, effects) = l.release s.handle in
      (record { handle = h; active = dec s.active }, effects)

  -- What follows the native call
  unfoldable pub crossed :
      {A : Type 0}
      → String
      → String
      → Crossed A
      → Holder H
      → Option PanicValue
      → Option GoError
      → Holder H × Outcome A × List Effect
  crossed operation parameter native s (some value) failure =
      ended (panics (callback_panic_error operation value)) (let_go s)
  crossed operation parameter native s none (some e) =
      ended (fails (stream_error operation parameter e)) (let_go s)
  crossed operation parameter native s none none =
      let e = stream_error_for_code panic_message operation native.code in
      if ==ℤ native.code (pos 0)
      then ended (returns native.result) (let_go s)
      else ended (fails e) (let_go (record s { handle = poison_after_panic l.poison e s.handle }))

  -- A method that lends a stream to native code; `none` is a nil stream.
  unfoldable pub lend :
      {A S : Type 0}
      → String
      → String
      → (S → Pointer → Crossed A)
      → Option S
      → Holder H
      → Holder H × Outcome A × List Effect
  lend operation parameter native none s =
      (s, fails (stream_error operation parameter (sentinel nil_stream)), [])
  lend operation parameter native (some stream) s =
      let (h, acquired, effects) = l.acquire (operation <> " receiver") s.handle in
      elim acquired [
        | err e ↦ (record s { handle = h }, fails e, effects)
        | ok p ↦
            let answer = native stream p in
            crossed operation parameter answer (record { handle = h; active = inc s.active })
              (taken answer.pending answer.panic) answer.failure
      ]

  -- `zigoCheckedDump`
  abbrev pub checked_dump :
      {S : Type 0}
      → (S → Pointer → Crossed (Unit {0}))
      → Option S
      → Holder H
      → Holder H × Outcome (Unit {0}) × List Effect
  checked_dump = lend "Document.Dump" "w"

  -- `zigoCheckedLoad`; the native side sees what `zigoReaderBytes` finds in the reader.
  abbrev pub checked_load :
      {S : Type 0}
      → (S → Pointer → Crossed ℕ)
      → Option S
      → Holder H
      → Holder H × Outcome ℕ × List Effect
  checked_load = lend "Document.Load" "r"

  -- `zigoCheckedAppend`
  abbrev pub checked_append :
      (Bytes → Pointer → Raw (Unit {0})) → Bytes → H → H × Result (Unit {0}) × List Effect
  checked_append native line =
      plain panic_message l "Document.Append" " receiver" (native line) (λ u. u)

  -- `Document.Write` and `Document.WriteString`: a count and an error
  abbrev counted :
      Bytes → H × Result (Unit {0}) × List Effect → H × ℕ × Option GoError × List Effect
  counted p (h, ok u, effects) = (h, length p, none, effects)
  counted p (h, err e, effects) = (h, 0, some e, effects)

  unfoldable pub write :
      (Bytes → Pointer → Raw (Unit {0})) → Bytes → H → H × ℕ × Option GoError × List Effect
  write native p h = counted p (checked_append native p h)

  -- `zigoCheckedReadInto`; the native side gives the count and what it leaves in the buffer.
  abbrev pub checked_read_into :
      (Bytes → Pointer → Raw (ℕ × Bytes)) → Bytes → H → H × Result (ℕ × Bytes) × List Effect
  checked_read_into native dst =
      plain panic_message l "Document.ReadInto" " receiver" (native dst) (λ r. r)

  -- `Document.Read`: the buffer, the count and the error. What a native call that failed wrote to the
  -- buffer is not followed.
  unfoldable pub read_answer :
      Bytes → H × Result (ℕ × Bytes) × List Effect → H × (Bytes × ℕ × Option GoError) × List Effect
  read_answer p (h, err e, effects) = (h, (p, 0, some e), effects)
  read_answer p (h, ok (n, filled), effects) =
      if (n == 0) && ltb 0 (length p)
      then (h, (filled, 0, some (sentinel (other 0))), effects)
      else (h, (filled, n, none), effects)

  unfoldable pub read :
      (Bytes → Pointer → Raw (ℕ × Bytes))
      → Bytes
      → H
      → H × (Bytes × ℕ × Option GoError) × List Effect
  read native p h = read_answer p (checked_read_into native p h)

  -- `Sink.Write`: the count is what the native side reports.
  unfoldable pub sink_write : (Bytes → Pointer → Raw ℕ) → Bytes → H → H × Result ℕ × List Effect
  sink_write native bytes = plain panic_message l "Sink.Write" " receiver" (native bytes) (λ n. n)

  -- `Source.Read`
  unfoldable pub source_answer :
      Bytes → H × Result (ℕ × Bytes) × List Effect → H × (Bytes × ℕ × Option GoError) × List Effect
  source_answer p (h, err e, effects) = (h, (p, 0, some e), effects)
  source_answer p (h, ok (n, filled), effects) =
      if n == 0
      then (h, (filled, 0, some (sentinel (other 0))), effects)
      else (h, (filled, n, none), effects)

  unfoldable pub source_read :
      (Bytes → Pointer → Raw (ℕ × Bytes))
      → Bytes
      → H
      → H × (Bytes × ℕ × Option GoError) × List Effect
  source_read native p h =
      source_answer p (plain panic_message l "Source.Read" " receiver" (native p) (λ r. r) h)
