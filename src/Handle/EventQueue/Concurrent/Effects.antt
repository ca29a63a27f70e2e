-- ===== src/Handle/EventQueue/Concurrent/Effects.antt =====
-- How many native releases the cleanups of an `EventQueue` make.
use zigo.Prelude.{ℕ, ◌+◌, ◌≡◌, refl, Option, none, some, List, [], ◌∷◌, ◌++◌, String, arith}
use zigo.Handle.Common.{
  Effect, deinit, delete_callback, report, delete_callback_handles, delete_callback_handle,
  deinit_pointer, report_leak,
}
use zigo.Handle.EventQueue.{EventQueue, CleanupState, collect, cleanup}
use zigo.Handle.EventQueue.Concurrent.{deinits}

pub deinits-append : (xs ys : List Effect) → deinits (xs ++ ys) ≡ deinits xs + deinits ys
deinits-append [] ys = omega arith
deinits-append (deinit p ∷ xs) ys = omega (arith, deinits-append xs ys)
deinits-append (delete_callback h ∷ xs) ys = deinits-append xs ys
deinits-append (report t s ∷ xs) ys = deinits-append xs ys

deinits-delete_callback_handle : (h : ℕ) → deinits (delete_callback_handle h) ≡ 0
deinits-delete_callback_handle h = ground arith

deinits-delete : (hs : List ℕ) → deinits (delete_callback_handles hs) ≡ 0
deinits-delete [] = refl
deinits-delete (h ∷ hs) = omega (
  arith,
  deinits-append (delete_callback_handle h) (delete_callback_handles hs),
  deinits-delete_callback_handle h,
  deinits-delete hs,
)

abbrev pub deinit_count : Option ℕ → ℕ
deinit_count none = 0
deinit_count (some p) = 1

deinits-deinit_pointer : (p : Option ℕ) → deinits (deinit_pointer p) ≡ deinit_count p
deinits-deinit_pointer none = refl
deinits-deinit_pointer (some p) = refl

deinits-report : (site : Option String) → deinits (report_leak "EventQueue" site) ≡ 0
deinits-report none = refl
deinits-report (some s) = refl

-- A cleanup releases the native object if it was handed the pointer.
pub deinits-cleanup : (s : CleanupState) → deinits (cleanup s) ≡ deinit_count s.ptr
unfolding cleanup
deinits-cleanup s = omega (
  arith,
  deinits-append (report_leak "EventQueue" s.site)
      (deinit_pointer s.ptr ++ delete_callback_handles s.callback_handles),
  deinits-append (deinit_pointer s.ptr) (delete_callback_handles s.callback_handles),
  deinits-report s.site,
  deinits-deinit_pointer s.ptr,
  deinits-delete s.callback_handles,
)

abbrev pub collect_count : EventQueue → Option (Option String) → ℕ
collect_count e none = 0
collect_count e (some _) = deinit_count e.ptr

pub deinits-collect : (e : EventQueue) → deinits (collect e).1 ≡ collect_count e e.cleanup
unfolding collect
deinits-collect e = go e.cleanup refl
  where
    go :
        (c : Option (Option String))
        → e.cleanup ≡ c
        → deinits (collect e).1 ≡ collect_count e e.cleanup
    go none h = rw (h, collect)
    go (some site) h = rw (h, collect) (deinits-cleanup _)
