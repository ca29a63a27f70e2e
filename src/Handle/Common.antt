-- ===== src/Handle/Common.antt =====
-- What the handle types of a generated package share
-- (examples/07-event-queue/go/event_queue/event_queue_handles_gen.go): native pointers, results, and
-- the calls that a cleanup makes.
use zigo.Prelude.{
  ℕ, Bool, true, false, Option, none, some, List, [], ◌∷◌, ◌++◌, String, if◌then◌else◌, ◌==◌,
}
use zigo.Errors.{GoError}

-- An `unsafe.Pointer` into native memory; `none` is nil.
abbrev pub Pointer : Type 0
Pointer = Option ℕ

abbrev pub is_nil {ℓ} : {A : Type ℓ} → Option A → Bool
is_nil none = true
is_nil (some a) = false

-- Go's (value, error) pair: a value, or an error with the zero value beside it.
pub data Result {ℓ} (A : Type ℓ) : Type ℓ where
  ok : A → Result A
  err : GoError → Result A

-- Calls out of the package that a cleanup makes, in order.
pub data Effect : Type 0 where
  -- the type's native destructor, such as `raw.EventQueueDeinit`
  deinit : ℕ → Effect
  -- `cgo.Handle.Delete`, with the count of active handles
  delete_callback : ℕ → Effect
  -- the line that `zigoReportLeak` writes to standard error
  report : String → String → Effect

-- `zigoReportLeak`
abbrev pub report_leak : String → Option String → List Effect
report_leak type_name none = []
report_leak type_name (some site) = report type_name site ∷ []

-- `zigoLeakSite`: the stack of the creating goroutine, while leak tracking is on.
abbrev pub leak_site : Bool → String → Option String
leak_site tracking stack = if tracking then some stack else none

-- `zigoDeleteCallbackHandle`
abbrev pub delete_callback_handle : ℕ → List Effect
delete_callback_handle handle = if handle == 0 then [] else delete_callback handle ∷ []

abbrev pub delete_callback_handles : List ℕ → List Effect
delete_callback_handles [] = []
delete_callback_handles (handle ∷ rest) =
    delete_callback_handle handle ++ delete_callback_handles rest

abbrev pub deinit_pointer : Pointer → List Effect
deinit_pointer none = []
deinit_pointer (some p) = deinit p ∷ []
