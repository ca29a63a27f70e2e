-- ===== src/Methods/Plain/Restoring.antt =====
-- What a method without callbacks leaves of its handle, whatever type of handle that is.
use zigo.Prelude.{◌≡◌, ◌∙◌, ap, false, [], List, String, ◌<>◌, if_cases, arith}
use zigo.Prelude.Int.{ℤ, pos, ==ℤ}
use zigo.Errors.{NativePanicError}
use zigo.Errors.Classify.{error_for_code, poison_after_panic, is_panic_code, error_for_code-is}
use zigo.Handle.Common.{Pointer, Result, ok, err, Effect}
use zigo.Handle.Lifecycle.{Lifecycle, Undoable, Laws}
use zigo.Methods.Plain.{Raw, plain, finished, leaving}

-- The handle is as it was, and nothing was called out.
abbrev pub Restored : {H B : Type 0} → H → H × Result B × List Effect → Type 0
Restored h r = (r.0 ≡ h) × (r.2 ≡ [])

leaving-Restored :
    {H B : Type 0} (h : H) (result : Result B) (gone : H × List Effect)
    → gone ≡ (h, [])
    → Restored h (leaving result gone)
leaving-Restored h result (h', effects) e = (ap (λ r. r.0) e, ap (λ r. r.1) e)

pub calm-poison :
    {H : Type 0} (message : ℤ → String) (poison : NativePanicError → H → H) (operation : String)
    (code : ℤ) (h : H)
    → is_panic_code code ≡ false
    → poison_after_panic poison (error_for_code message operation code) h ≡ h
calm-poison message poison operation code h calm =
    let spared = (error_for_code-is message poison operation code (pos 0) h).2 in
    ground (arith, spared)

finished-Restored :
    {H A B : Type 0} (message : ℤ → String) (l : Lifecycle H) (operation : String) (convert : A → B)
    (h h' : H) (answer : Raw A)
    → is_panic_code answer.1 ≡ false
    → l.release h' ≡ (h, [])
    → Restored h (finished message l operation convert h' answer)
unfolding finished
finished-Restored {B = B} message l operation convert h h' (value, code) calm back =
    let e = error_for_code message operation code in
    let failure : Result B = err e in
    let same = calm-poison message l.poison operation code h' calm in
    if_cases (Restored h) (==ℤ code (pos 0))
      (λ is_zero. leaving-Restored h (ok (convert value)) (l.release h') back)
      (λ failed.
        leaving-Restored h failure (l.release (poison_after_panic l.poison e h'))
          (ap (λ q. l.release q) same ∙ back))

answered-Restored :
    {H A B : Type 0} (message : ℤ → String) (l : Lifecycle H) (operation : String)
    (native : Pointer → Raw A) (convert : A → B) (h : H) (answer : H × Result Pointer × List Effect)
    → ((p : Pointer) → is_panic_code (native p).1 ≡ false)
    → Undoable l h answer
    → Restored h (elim answer.1 as (λ x. H × Result B × List Effect) [
      | err e ↦ (answer.0, err e, answer.2)
      | ok p ↦ finished message l operation convert answer.0 (native p)
    ])
answered-Restored message l operation native convert h (h', err x, effects) calm u = u
answered-Restored message l operation native convert h (h', ok p, effects) calm u =
    finished-Restored message l operation convert h h' (native p) (calm p) u.0

-- A method that runs no callbacks gives its handle back as it was and releases nothing, whether the handle
-- refuses the call, the native side reports an error or the call succeeds; the native call does not
-- end in a Zig panic, and the handle has room for one more call.
pub plain-Restored :
    {H A B : Type 0} (message : ℤ → String) (l : Lifecycle H) (HasRoom : H → Type 0)
    (laws : Laws l HasRoom) (operation what : String) (native : Pointer → Raw A) (convert : A → B)
    (h : H)
    → HasRoom h
    → ((p : Pointer) → is_panic_code (native p).1 ≡ false)
    → Restored h (plain message l operation what native convert h)
unfolding plain
plain-Restored message l HasRoom laws operation what native convert h room calm =
    answered-Restored message l operation native convert h _ calm
      (laws.undoable (operation <> what) h room)
