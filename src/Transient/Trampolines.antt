-- ===== src/Transient/Trampolines.antt =====
-- The trampolines that run a Go callback for native code, and what they leave behind the callback's handle
-- (examples/04-callback/go/callback_cgo_gen.go, lines 36-168).
-- One handle at a time: `panics` is the global counter `pendingCallbackPanics`, and `memory` the words that
-- cancellation flags point to. What the user's callback does in each crossing is a parameter.
use zigo.Prelude.{
  ℕ, ◌<◌, ◌≡◌, Bool, true, false, not, ◌||◌, ◌&&◌, Option, none, some, List, [], ◌∷◌, if◌then◌else◌,
  ◌==◌, inc, dec, word, arith,
}
use zigo.Prelude.Int.{ℤ, pos}
use zigo.Errors.{GoError, PanicValue}
use zigo.Handle.Common.{is_nil}

-- `zigoRawCallbackState`; `some v` in `panicked` stands for the flag with its value and stack.
pub record CallbackState : Type 0 where
  pub panicked : Option PanicValue
  pub failure : Option GoError
  pub cancel : Option ℕ  -- *uint32

pub record Process : Type 0 where
  pub state : CallbackState
  pub panics : ℕ  -- atomic.Int64
  pub memory : ℕ → ℕ

-- `atomic.StoreUint32`
abbrev pub store : ℕ → ℕ → (ℕ → ℕ) → ℕ → ℕ
store address value memory a = if a == address then value else memory a

trip_flag : Option ℕ → (ℕ → ℕ) → ℕ → ℕ
trip_flag none memory = memory
trip_flag (some flag) memory = store flag 1 memory

-- `zigoRawCallbackState.tripCancel`
unfoldable pub trip_cancel : Process → Process
unfolding trip_flag
trip_cancel p = record p { memory = trip_flag p.state.cancel p.memory }

-- The critical section of `zigoRawCallbackState.record`
unfoldable pub keep_panic : PanicValue → Process → Process
keep_panic value p =
    if is_nil p.state.panicked
    then record p { state = record p.state { panicked = some value }; panics = inc p.panics }
    else p

-- `zigoRawCallbackState.record`
unfoldable pub record_panic : PanicValue → Process → Process
record_panic value p = keep_panic value (trip_cancel p)

-- `zigoRawCallbackState.recordErr`
unfoldable pub record_err : GoError → Process → Process
record_err e p =
    let p' = trip_cancel p in
    if is_nil p'.state.failure
    then record p' { state = record p'.state { failure = some e } }
    else p'

-- `zigoRawTakeCallbackPanic`
unfoldable pub take_callback_panic : Process → Process × Option PanicValue
take_callback_panic p = if is_nil p.state.panicked then (p, none) else (
  record p { state = record p.state { panicked = none }; panics = dec p.panics },
  p.state.panicked,
)

-- `zigoRawTakeCallbackError`
unfoldable pub take_callback_error : Process → Process × Option GoError
take_callback_error p =
    if is_nil p.state.failure
    then (p, none)
    else (record p { state = record p.state { failure = none } }, p.state.failure)

-- What the user's callback did in one crossing
pub data Crossing : Type 0 where
  gave : ℤ → Crossing
  failed : GoError → Crossing
  panicked : PanicValue → Crossing

-- `zg_apply_go_callback_callback`, of a handle that is there: native code gets 0 for a failed crossing.
unfoldable pub trampoline : Crossing → Process → Process × ℤ
trampoline (gave value) p = (p, value)
trampoline (failed e) p = (record_err e p, pos 0)
trampoline (panicked value) p = (record_panic value p, pos 0)

-- All crossings of one native call
unfoldable pub crossings : List Crossing → Process → Process
crossings [] p = p
crossings (c ∷ cs) p = crossings cs (trampoline c p).0

-- The first panic, and the first error, among the crossings
abbrev pub first_panic : List Crossing → Option PanicValue
first_panic [] = none
first_panic (panicked value ∷ cs) = some value
first_panic (c ∷ cs) = first_panic cs

abbrev pub first_failure : List Crossing → Option GoError
first_failure [] = none
first_failure (failed e ∷ cs) = some e
first_failure (c ∷ cs) = first_failure cs

abbrev pub has_failed : Crossing → Bool
has_failed (gave value) = false
has_failed c = true

abbrev pub any_failed : List Crossing → Bool
any_failed [] = false
any_failed (c ∷ cs) = let rest = any_failed cs in has_failed c || rest

-- `or_else a b` is `a`, if there is one.
abbrev pub or_else {ℓ} : {A : Type ℓ} → Option A → Option A → Option A
or_else (some a) b = some a
or_else none b = b

-- What the crossings leave behind a handle that held `p`
pub record Left (p : Process) (cs : List Crossing) (q : Process) : Type 0 where
  pub panic : q.state.panicked ≡ or_else p.state.panicked (first_panic cs)
  pub failure : q.state.failure ≡ or_else p.state.failure (first_failure cs)
  pub cancel : q.state.cancel ≡ p.state.cancel
  pub pending : q.panics ≡ (
      if is_nil p.state.panicked && not (is_nil (first_panic cs)) then inc p.panics else p.panics)
  pub flag :
      (address : ℕ)
      → p.state.cancel ≡ some address
      → q.memory address ≡ (if any_failed cs then 1 else p.memory address)

trampoline-Left : (c : Crossing) (p : Process) → Left p (c ∷ []) (trampoline c p).0
unfolding trampoline record_err record_panic keep_panic trip_cancel trip_flag
trampoline-Left (gave value) p = ground arith
trampoline-Left (failed e) p = ground arith
trampoline-Left (panicked value) p = ground arith

crossings-Left : (cs : List Crossing) (p : Process) → Left p cs (crossings cs p)
unfolding crossings
crossings-Left [] p = ground arith
crossings-Left (c ∷ cs) p =
    join c cs p (trampoline c p).0 (crossings cs (trampoline c p).0) (trampoline-Left c p)
      (crossings-Left cs (trampoline c p).0)
  where
    join :
        (c : Crossing) (cs : List Crossing) (p q r : Process)
        → Left p (c ∷ []) q
        → Left q cs r
        → Left p (c ∷ cs) r
    join (gave value) cs p q r a b = ground (arith, a.flag, b.flag)
    join (failed e) cs p q r a b = ground (arith, a.flag, b.flag)
    join (panicked value) cs p q r a b = ground (arith, a.flag, b.flag)

-- Before a call nothing is behind its handle: no panic and no error.
abbrev pub IsFresh : Process → Type 0
IsFresh p = (p.state.panicked ≡ none) × (p.state.failure ≡ none)

-- A callback that native code runs any number of times in one call, whatever it does each time: afterwards the
-- caller takes the first panic, if there was one, and the first error, whichever came first of the two;
-- taking them leaves nothing behind the handle and the count of pending panics as it was before the
-- call; and the call's cancellation flag is set exactly if some run panicked or failed. Nothing was
-- behind the handle before, and fewer than 2 ^ 64 panics are pending.
pub crossings_lem :
    (cs : List Crossing) (p : Process) (flag : ℕ)
    → IsFresh p
    → p.state.cancel ≡ some flag
    → p.panics < word
    → let q = crossings cs p in
      let (r, panic) = take_callback_panic q in
      let (s, failure) = take_callback_error r in
      (panic ≡ first_panic cs)
      × (failure ≡ first_failure cs)
      × IsFresh s
      × (s.panics ≡ p.panics)
      × (s.memory flag ≡ (if any_failed cs then 1 else p.memory flag))
unfolding take_callback_panic take_callback_error
crossings_lem cs p flag fresh set small =
    let left = crossings-Left cs p in ground (arith, left, left.flag flag set)
