-- ===== src/Methods/Merging/Balance.antt =====
-- What `MergeFrom` leaves of the counts of calls, also for a queue that is merged into itself.
use zigo.Prelude.{
  ℕ, ◌+◌, ◌<◌, ◌≡◌, refl, Bool, true, false, Option, none, some, List, String, if◌then◌else◌, ◌==◌,
  word, inc, dec, arith, ◌∙◌, ◌++◌, ◌&&◌,
}
use zigo.Prelude.Int.{ℤ}
use zigo.Errors.{GoError}
use zigo.Errors.Classify.{error_for_code}
use zigo.Handle.Common.{Pointer, Result, ok, err}
use zigo.Handle.EventQueue as Queue
use zigo.Handle.EventQueue.{EventQueue}
use zigo.Methods.{Native, Outcome, fails, slots}
use zigo.Methods.Observers.{poison_after_panic-IsPoisoning, IsPoisoning}
use zigo.Methods.Merging.{
  Store, acquire_at, release_at, acquire_optional, release_optional, poison_at, poison_optional,
  sweep_all, slots_optional, let_go, merged, merge_with, merge_from,
}

-- How often a call has the queue `k` inside: once as the receiver, once as the source
abbrev pub held : ℕ → Option ℕ → ℕ → ℕ
held i none k = if i == k then 1 else 0
held i (some j) k = (if i == k then 1 else 0) + (if j == k then 1 else 0)

-- The queues of two stores agree but for poison and for the calls that are counted.
abbrev pub Kept : Store → Store → ℕ → Type 0
Kept s s' k =
    ((s'.queues k).closed ≡ (s.queues k).closed) × ((s'.queues k).active ≡ (s.queues k).active)

release_at-Kept :
    (i k : ℕ) (s : Store)
    → (s.queues k).closed ≡ false
    → (((release_at i s).queues k).closed ≡ false)
      × (((release_at i s).queues k).active
          ≡ (if i == k then dec (s.queues k).active else (s.queues k).active))
unfolding release_at Queue.release Queue.take_locked
release_at-Kept i k s o = ground arith

poison_at-Kept : (e : GoError) (i k : ℕ) (s : Store) → Kept s (poison_at e i s) k
unfolding poison_at IsPoisoning
poison_at-Kept e i k s = ground (arith, poison_after_panic-IsPoisoning e (s.queues i))

poison_optional-Kept :
    (e : GoError) (source : Option ℕ) (k : ℕ) (s : Store) → Kept s (poison_optional e source s) k
unfolding poison_optional
poison_optional-Kept e none k s = (refl, refl)
poison_optional-Kept e (some j) k s = poison_at-Kept e j k s

sweep_all-Kept :
    (native : Native) (handles : List ℕ) (k : ℕ) (s : Store)
    → Kept s (sweep_all native handles s).0 k
unfolding sweep_all
sweep_all-Kept native handles k s = (refl, refl)

let_go-active :
    (i : ℕ) (source : Option ℕ) (k : ℕ) (s : Store)
    → (s.queues k).closed ≡ false
    → held i source k < (s.queues k).active + 1
    → (s.queues k).active < word
    → ((let_go i source s).queues k).active + held i source k ≡ (s.queues k).active
unfolding let_go release_optional
let_go-active i none k s o enough small = ground (arith, release_at-Kept i k s o)
let_go-active i (some j) k s o enough small =
    let first = release_at-Kept j k s o in
    ground (arith, first, release_at-Kept i k (release_at j s) first.0)

merged-active :
    (message : ℤ → String) (i : ℕ) (source : Option ℕ) (native : Native) (result k : ℕ) (s : Store)
    (panic : Option GoError)
    → (s.queues k).closed ≡ false
    → held i source k < (s.queues k).active + 1
    → (s.queues k).active < word
    → ((merged message i source native result (s, panic)).0.queues k).active + held i source k
      ≡ (s.queues k).active
unfolding merged
merged-active message i source native result k s (some e) o enough small =
    let_go-active i source k s o enough small
merged-active message i source native result k s none o enough small =
    let e = error_for_code message "EventQueue.MergeFrom" native.code in
    let once = poison_at-Kept e i k s in
    let twice = poison_optional-Kept e source k (poison_at e i s) in
    let count = twice.1 ∙ once.1 in
    let gone =
      let_go-active i source k (poison_optional e source (poison_at e i s)) (twice.0 ∙ once.0 ∙ o)
        (omega (arith, count, enough)) (omega (arith, count, small)) in
    ground (arith, gone, count, let_go-active i source k s o enough small)

-- What is inside after the source was acquired, or refused
abbrev owed : ℕ → Option ℕ → ℕ → Result Pointer → ℕ
owed i source k (ok p) = held i source k
owed i source k (err e) = held i none k

merge_with-active :
    (message : ℤ → String) (i : ℕ) (source : Option ℕ) (native : Native) (result k : ℕ) (s : Store)
    (r : Result Pointer)
    → (s.queues k).closed ≡ false
    → owed i source k r < (s.queues k).active + 1
    → (s.queues k).active < word
    → ((merge_with message i source native result (s, r)).0.queues k).active + owed i source k r
      ≡ (s.queues k).active
unfolding merge_with
merge_with-active message i source native result k s (err e) o enough small =
    ground (arith, release_at-Kept i k s o)
merge_with-active message i source native result k s (ok p) o enough small =
    let handles = slots (s.queues i) ++ slots_optional source s in
    let swept = sweep_all native handles s in
    let kept = sweep_all-Kept native handles k s in
    let all =
      merged-active message i source native result k swept.0 swept.1 (kept.0 ∙ o)
        (omega (arith, kept.1, enough)) (omega (arith, kept.1, small)) in
    all ∙ kept.1

abbrev is_ok : Result Pointer → Bool
is_ok (ok p) = true
is_ok (err e) = false

acquire_at-Kept :
    (op : String) (i k : ℕ) (s : Store)
    → let (s', r) = acquire_at op i s in
      ((s'.queues k).closed ≡ (s.queues k).closed)
      × ((s'.queues k).active
          ≡ (if is_ok r && (i == k) then inc (s.queues k).active else (s.queues k).active))
unfolding acquire_at Queue.acquire
acquire_at-Kept op i k s = ground arith

acquire_optional-Kept :
    (op : String) (i : ℕ) (source : Option ℕ) (k : ℕ) (s : Store)
    → (s.queues k).active + 1 < word
    → let (s', r) = acquire_optional op source s in
      ((s'.queues k).closed ≡ (s.queues k).closed)
      × ((s'.queues k).active + held i none k ≡ (s.queues k).active + owed i source k r)
unfolding acquire_optional
acquire_optional-Kept op i none k s small = ground arith
acquire_optional-Kept op i (some j) k s small = ground (arith, acquire_at-Kept op j k s)

-- The rest of the call, once the receiver is inside
entered-active :
    (message : ℤ → String) (i : ℕ) (source : Option ℕ) (native : Native) (result k : ℕ)
    (s entered : Store) (r : Result Pointer)
    → (entered.queues k).closed ≡ false
    → (s.queues k).active + 2 < word
    → (entered.queues k).active
      ≡ (if is_ok r && (i == k) then inc (s.queues k).active else (s.queues k).active)
    → ((elim r as (λ x. Store × Outcome ℕ) [
      | err e ↦ (s, fails e)
      | ok p ↦
          merge_with message i source native result
            (acquire_optional "EventQueue.MergeFrom parameter source" source entered)
    ]).0.queues
        k).active
      ≡ (s.queues k).active
entered-active message i source native result k s entered (err e) o small count = refl
entered-active message i source native result k s entered (ok p) o small count =
    let op : String = "EventQueue.MergeFrom parameter source" in
    let both = acquire_optional op source entered in
    let second = acquire_optional-Kept op i source k entered (ground (arith, count)) in
    let left =
      merge_with-active message i source native result k both.0 both.1 (second.0 ∙ o)
        (ground (arith, second.1, count)) (ground (arith, second.1, count)) in
    ground (arith, second.1, count, left)

-- `MergeFrom` leaves each open queue's count of calls as it was, whichever way it ends: as the receiver,
-- as the source, as both at once, or as a queue that takes no part. Fewer than 2 ^ 64 - 2 calls are
-- inside it.
pub merge_from-active :
    (message : ℤ → String) (i : ℕ) (source : Option ℕ) (native : Native) (result k : ℕ) (s : Store)
    → (s.queues k).closed ≡ false
    → (s.queues k).active + 2 < word
    → ((merge_from message i source native result s).0.queues k).active ≡ (s.queues k).active
unfolding merge_from
merge_from-active message i source native result k s o small =
    let op : String = "EventQueue.MergeFrom receiver" in
    let first = acquire_at-Kept op i k s in
    let (entered, r) = acquire_at op i s in
    entered-active message i source native result k s entered r (first.0 ∙ o) small first.1
