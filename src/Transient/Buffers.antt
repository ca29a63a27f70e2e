-- ===== src/Transient/Buffers.antt =====
-- The handles `FloatBuffer` and `IntBuffer`, which have no callbacks
-- (examples/04-callback/go/callback_handles_gen.go, lines 194-418), and their methods (callback_gen.go,
-- lines 121-200). Both have one text, but for the name of the type and the width of an element; `kind` is
-- the name. An element is its bit pattern.
use zigo.Prelude.{
  ℕ, ◌+◌, ◌<◌, ◌≡◌, Bool, true, false, not, ◌||◌, Option, none, some, List, [], ◌++◌, String, ◌<>◌,
  if◌then◌else◌, ◌==◌, inc, dec, word, arith,
}
use zigo.Prelude.Int.{ℤ, pos, ==ℤ}
use zigo.Errors.{GoError, NativePanicError, handle_error, poisoned}
use zigo.Errors.Classify.{is_panic_code, poison_after_panic}
use zigo.Handle.Common.{Pointer, is_nil, Result, ok, err, Effect, report_leak, deinit_pointer}
use zigo.Handle.Lifecycle.{Lifecycle, Laws}
use zigo.Transient.{error_for_code}

pub record Buffer : Type 0 where
  pub ptr : Pointer
  pub active : ℕ  -- int
  pub closed : Bool
  pub poison : Option NativePanicError
  pub cleanup : Option (Option String)

-- `zigoFloatBufferCleanupState`
pub record CleanupState : Type 0 where
  pub ptr : Pointer
  pub site : Option String

-- `zigoNewFloatBuffer`
unfoldable pub new : Pointer → Option String → Buffer
new ptr site = record { ptr = ptr; active = 0; closed = false; poison = none; cleanup = some site }

-- `zigoCleanupFloatBuffer`
unfoldable pub cleanup : String → CleanupState → List Effect
cleanup kind state = report_leak kind state.site ++ deinit_pointer state.ptr

-- `zigoTakeLocked`
unfoldable pub take_locked : Buffer → Buffer × Option CleanupState
take_locked f = if not f.closed || (not (f.active == 0) || is_nil f.ptr) then (f, none) else (
  record f { ptr = none },
  some (record { ptr = if is_nil f.poison then f.ptr else none; site = none }),
)

abbrev pub cleanup_taken : String → Option CleanupState → List Effect
cleanup_taken kind none = []
cleanup_taken kind (some state) = cleanup kind state

admit : String → Buffer → Option NativePanicError → Buffer × Result Pointer
admit operation f (some cause) = (f, err (poisoned cause operation))
admit operation f none = (record f { active = inc f.active }, ok f.ptr)

-- `zigoAcquire`, for a receiver that is not nil
unfoldable pub acquire : String → Buffer → Buffer × Result Pointer
unfolding admit
acquire operation f =
    if f.closed || is_nil f.ptr
    then (f, err (handle_error operation))
    else admit operation f f.poison

-- `zigoRelease`, for a receiver that is not nil
unfoldable pub release : String → Buffer → Buffer × List Effect
unfolding take_locked
release kind f =
    let (f', state) = take_locked (record f { active = dec f.active }) in
    (f', cleanup_taken kind state)

-- `zigoPoison`, for a receiver that is not nil
unfoldable pub poison : NativePanicError → Buffer → Buffer
poison cause f = if is_nil f.poison then record f { poison = some cause; cleanup = none } else f

-- `Close`, for a receiver that is not nil
unfoldable pub close : String → Buffer → Buffer × Option GoError × List Effect
unfolding take_locked
close kind f =
    if f.closed
    then (f, none, [])
    else let (f', state) = take_locked (record f { closed = true; cleanup = none }) in
      (f', none, cleanup_taken kind state)

-- The handle as a `zigoHandle`
abbrev pub buffer : String → Lifecycle Buffer
buffer kind = record {
  acquire = λ operation f. let (f', answer) = acquire operation f in (f', answer, []);
  release = release kind;
  poison = poison;
}

pub buffer_laws : (kind : String) → Laws (buffer kind) (λ f. f.active + 1 < word)
unfolding acquire release
buffer_laws kind = record { undoable = λ operation f room. ground arith }

-- A native call's result, and its `int32` code
abbrev pub Raw : Type 0 → Type 0
Raw A = A × ℤ

abbrev pub left : {A : Type 0} → Result A → Buffer × List Effect → Buffer × Result A × List Effect
left result (f, effects) = (f, result, effects)

module _ (panic_message : ℤ → String) (kind : String) where
  -- What follows the native call
  unfoldable pub buffer_answered :
      {A : Type 0} → String → Raw A → Buffer → Buffer × Result A × List Effect
  buffer_answered operation (result, code) f =
      let e = error_for_code panic_message operation code in
      if ==ℤ code (pos 0)
      then left (ok result) (release kind f)
      else left (err e) (release kind (poison_after_panic poison e f))

  unfoldable pub buffer_entered :
      {A : Type 0}
      → String
      → (Pointer → Raw A)
      → Buffer × Result Pointer
      → Buffer × Result A × List Effect
  buffer_entered operation native (f, err e) = (f, err e, [])
  buffer_entered operation native (f, ok ptr) = buffer_answered operation (native ptr) f

  unfoldable pub buffer_call :
      {A : Type 0} → String → (Pointer → Raw A) → Buffer → Buffer × Result A × List Effect
  buffer_call operation native f =
      buffer_entered operation native (acquire (operation <> " receiver") f)

  -- `FloatBuffer.Push`
  unfoldable pub buffer_push :
      (ℕ → Pointer → Raw (Unit {0})) → ℕ → Buffer → Buffer × Result (Unit {0}) × List Effect
  buffer_push native value = buffer_call (kind <> ".Push") (native value)

  -- `FloatBuffer.Len`
  unfoldable pub buffer_len : (Pointer → Raw ℕ) → Buffer → Buffer × Result ℕ × List Effect
  buffer_len native = buffer_call (kind <> ".Len") native

  -- `NewFloatBuffer`
  unfoldable pub new_buffer : Raw Pointer → Option String → Result Buffer
  new_buffer (result, code) site =
      if ==ℤ code (pos 0)
      then ok (new result site)
      else err (error_for_code panic_message ("New" <> kind) code)

  -- A method that was let in and whose native side did not panic leaves the buffer as it found it, and
  -- calls nothing out.
  pub buffer_call-Kept :
      {A : Type 0} (operation : String) (native : Pointer → Raw A) (f : Buffer)
      → f.closed ≡ false
      → f.active + 1 < word
      → is_panic_code (native f.ptr).1 ≡ false
      → let r = buffer_call operation native f in (r.0 ≡ f) × (r.2 ≡ [])
  unfolding buffer_call buffer_entered buffer_answered acquire release poison_after_panic
      error_for_code
  buffer_call-Kept operation native f not_closed room calm = ground arith
