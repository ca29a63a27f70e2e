-- ===== src/Documents/Contracts.antt =====
-- What the io methods promise, whatever the native side answers.
use zigo.Prelude.{
  ℕ, ◌<◌, ◌≤◌, ◌≡◌, ◌∙◌, refl, ap, Bool, true, false, not, ◌&&◌, Option, none, some, List, [],
  String, ◌<>◌, ◌==◌, ltb, leb, length, inc, dec, dec-inc, word, if_cases, arith,
}
use zigo.Prelude.Int.{ℤ, pos, ==ℤ}
use zigo.Errors.{GoError, PanicValue, callback_panic_error, stream_error}
use zigo.Errors.Classify.{is_panic_code}
use zigo.Documents.Codes.{stream_error_for_code, stream_error_for_code-calm}
use zigo.Handle.Common.{Pointer, Result, ok, err, Effect, is_nil}
use zigo.Handle.Lifecycle.{Lifecycle, Undoable, Laws}
use zigo.Methods.{Outcome, returns, fails, panics}
use zigo.Methods.Plain.{Raw, plain, finished}
use zigo.Documents.{
  Bytes, Crossed, Holder, let_go, ended, crossed, taken, lend, read_answer, read, source_answer,
  source_read,
}

-- The receiver and the count of handles are as they were, and nothing was released.
abbrev pub Unchanged : {H A : Type 0} → Holder H → Holder H × Outcome A × List Effect → Type 0
Unchanged s r = (r.0 ≡ s) × (r.2 ≡ [])

let_go-Unchanged :
    {H : Type 0} (message : ℤ → String) (l : Lifecycle H) (s : Holder H) (h : H)
    → s.active < word
    → l.release h ≡ (s.handle, [])
    → let_go message l (record { handle = h; active = inc s.active }) ≡ (s, [])
unfolding let_go
let_go-Unchanged {H = H} message l s h small back =
    ap (λ (q : H × List Effect). (record { handle = q.0; active = dec (inc s.active) }, q.1)) back
    ∙ ap (λ (n : ℕ). (record { handle = s.handle; active = n }, [])) (dec-inc s.active small)

ended-Unchanged :
    {H A : Type 0} (s : Holder H) (outcome : Outcome A) (gone : Holder H × List Effect)
    → gone ≡ (s, [])
    → Unchanged s (ended outcome gone)
ended-Unchanged s outcome (s', effects) e = (ap (λ r. r.0) e, ap (λ r. r.1) e)

crossed-Unchanged :
    {H A : Type 0} (message : ℤ → String) (l : Lifecycle H) (operation parameter : String)
    (native : Crossed A) (s : Holder H) (h : H) (panic : Option PanicValue)
    (failure : Option GoError)
    → is_panic_code native.code ≡ false
    → s.active < word
    → l.release h ≡ (s.handle, [])
    → Unchanged s (
        crossed message l operation parameter native
          (record { handle = h; active = inc s.active })
          panic
          failure)
unfolding crossed
crossed-Unchanged {A = A} message l operation parameter native s h (some v) failure calm small
      back =
    let raised : Outcome A = panics (callback_panic_error operation v) in
    ended-Unchanged s raised _ (let_go-Unchanged message l s h small back)
crossed-Unchanged {A = A} message l operation parameter native s h none (some e) calm small back =
    let failed : Outcome A = fails (stream_error operation parameter e) in
    ended-Unchanged s failed _ (let_go-Unchanged message l s h small back)
crossed-Unchanged {A = A} message l operation parameter native s h none none calm small back =
    let e = stream_error_for_code message operation native.code in
    let same = stream_error_for_code-calm message l.poison operation native.code h calm in
    let failed : Outcome A = fails e in
    let gone = let_go-Unchanged message l s h small back in
    if_cases (Unchanged s) (==ℤ native.code (pos 0))
      (λ is_zero. ended-Unchanged s (returns native.result) _ gone)
      (λ is_other. ended-Unchanged s failed _ (rw same gone))

answered-Unchanged :
    {H A : Type 0} (message : ℤ → String) (l : Lifecycle H) (operation parameter : String)
    (native : Pointer → Crossed A) (s : Holder H) (answer : H × Result Pointer × List Effect)
    → ((p : Pointer) → is_panic_code (native p).code ≡ false)
    → s.active < word
    → Undoable l s.handle answer
    → Unchanged s (elim answer.1 as (λ x. Holder H × Outcome A × List Effect) [
      | err e ↦ (record s { handle = answer.0 }, fails e, answer.2)
      | ok p ↦
          crossed message l operation parameter
            (native p)
            (record { handle = answer.0; active = inc s.active })
            (taken (native p).pending (native p).panic)
            (native p).failure
    ])
answered-Unchanged message l operation parameter native s (h, err e, effects) calm small u =
    (ap (λ q. record s { handle = q }) u.0, u.1)
answered-Unchanged message l operation parameter native s (h, ok p, effects) calm small u =
    crossed-Unchanged message l operation parameter (native p) s h
      (taken (native p).pending (native p).panic) (native p).failure (calm p) small u.0

-- A method that lends a reader or a writer to native code leaves no callback handle behind and gives its
-- receiver back as it was, releasing nothing: when the stream is nil, when the receiver refuses the call,
-- when the stream panicked or failed, when the native side reports an error, and after a success. The
-- native call does not end in a Zig panic, and the receiver has room for one more call.
pub lend-Unchanged :
    {H A S : Type 0} (message : ℤ → String) (l : Lifecycle H) (HasRoom : H → Type 0)
    (laws : Laws l HasRoom) (operation parameter : String) (native : S → Pointer → Crossed A)
    (stream : Option S) (s : Holder H)
    → HasRoom s.handle
    → s.active < word
    → ((x : S) (p : Pointer) → is_panic_code (native x p).code ≡ false)
    → Unchanged s (lend message l operation parameter native stream s)
unfolding lend
lend-Unchanged message l HasRoom laws operation parameter native none s room small calm =
    (refl, refl)
lend-Unchanged message l HasRoom laws operation parameter native (some x) s room small calm =
    answered-Unchanged message l operation parameter (native x) s _ (calm x) small
      (laws.undoable (operation <> " receiver") s.handle room)

-- A count that lies in the buffer, and that is 0 without an error only if the buffer has no room
abbrev pub is_within : Bytes → Bytes × ℕ × Option GoError → Bool
is_within p (filled, n, e) = leb n (length p) && not (is_nil e && ((n == 0) && ltb 0 (length p)))

finished-is_within :
    {H : Type 0} (message : ℤ → String) (l : Lifecycle H) (operation : String) (p : Bytes) (h : H)
    (answer : Raw (ℕ × Bytes))
    → answer.0.0 ≤ length p
    → (is_within p (read_answer message l p (finished message l operation (λ r. r) h answer)).1
        ≡ true)
      × (is_within p (source_answer message l p (finished message l operation (λ r. r) h answer)).1
          ≡ true)
unfolding finished read_answer source_answer
finished-is_within message l operation p h ((n, filled), code) fits = ground arith

plain-is_within :
    {H : Type 0} (message : ℤ → String) (l : Lifecycle H) (operation : String) (p : Bytes)
    (native : Pointer → Raw (ℕ × Bytes)) (answer : H × Result Pointer × List Effect)
    → ((q : Pointer) → (native q).0.0 ≤ length p)
    → let r : H × Result (ℕ × Bytes) × List Effect = elim answer.1 [
      | err e ↦ (answer.0, err e, answer.2)
      | ok q ↦ finished message l operation (λ r. r) answer.0 (native q)
    ] in
      (is_within p (read_answer message l p r).1 ≡ true)
      × (is_within p (source_answer message l p r).1 ≡ true)
unfolding read_answer source_answer
plain-is_within message l operation p native (h, err e, effects) fits = ground arith
plain-is_within message l operation p native (h, ok q, effects) fits =
    finished-is_within message l operation p h (native q) (fits q)

-- `Document.Read` and `Source.Read`, whatever state the handle is in, return a count that is at most the
-- length of the buffer, and 0 without an error only for an empty buffer, if the native side reports no more
-- bytes than the buffer has.
pub read-is_within :
    {H : Type 0} (message : ℤ → String) (l : Lifecycle H) (p : Bytes)
    (native : Bytes → Pointer → Raw (ℕ × Bytes)) (h : H)
    → ((q : Pointer) → (native p q).0.0 ≤ length p)
    → (is_within p (read message l native p h).1 ≡ true)
      × (is_within p (source_read message l native p h).1 ≡ true)
unfolding read source_read plain
read-is_within message l p native h fits = (
  (plain-is_within message l "Document.ReadInto" p (native p)
      (l.acquire ("Document.ReadInto" <> " receiver") h) fits).0,
  (plain-is_within message l "Source.Read" p (native p) (l.acquire ("Source.Read" <> " receiver") h)
      fits).1,
)
