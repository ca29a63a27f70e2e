-- ===== src/TaggedUnion/Handles/Keeping.antt =====
-- What owned handles and references keep as `zigoHandle`s.
use zigo.Prelude.{
  ◌+◌, ◌<◌, ◌≡◌, refl, ap, true, false, Option, none, some, List, [], ◌∷◌, String, ℕ, if◌then◌else◌,
  ◌==◌, word, arith,
}
use zigo.Errors.{handle_error}
use zigo.Handle.Common.{Pointer, Result, ok, err, Effect, deinit}
use zigo.Handle.Lifecycle.{Lifecycle, Undoable, Laws}
use zigo.TaggedUnion.Handles.{
  Owned, acquire, release, close, take_locked, owned, Reference, reference, acquire_parent,
  acquired_over, acquire_reference, release_reference, release_parent, cleanup,
}

abbrev pub OwnedHasRoom : Owned → Type 0
OwnedHasRoom v = v.active + 1 < word

pub owned_laws : (type_name : String) → Laws (owned type_name) OwnedHasRoom
unfolding acquire release
owned_laws type_name = record { undoable = λ operation v room. ground arith }

-- The parent of a reference has room, if there is one.
abbrev pub ParentHasRoom : {H : Type 0} → (H → Type 0) → Option H → Type 0
ParentHasRoom HasRoom none = Unit {0}
ParentHasRoom HasRoom (some p) = HasRoom p

-- `&ValueRef{ptr: result, parent: v}`
abbrev pub borrowed_from : {H : Type 0} → Pointer → H → Reference H
borrowed_from ptr p = record { ptr = ptr; parent = some p }

-- Every call is refused as on a closed handle, and changes nothing.
abbrev pub Refuses : {H : Type 0} → Lifecycle H → H → Type 0
Refuses l h = (operation : String) → l.acquire operation h ≡ (h, err (handle_error operation), [])

module _ {H : Type 0} (l : Lifecycle H) where
  acquired_over-Undoable :
      (ptr : Pointer) (p : H) (answer : H × Result Pointer × List Effect)
      → Undoable l p answer
      → Undoable (reference l) (borrowed_from ptr p) (acquired_over l (borrowed_from ptr p) answer)
  unfolding acquired_over release_reference release_parent
  acquired_over-Undoable ptr p (p', err e, effects) (same, quiet) =
      (ap (borrowed_from ptr) same, quiet)
  acquired_over-Undoable ptr p (p', ok q, effects) (back, quiet) =
      (ap (λ (q : H × List Effect). (borrowed_from ptr q.0, q.1)) back, quiet)

  pub reference_laws :
      {HasRoom : H → Type 0}
      → Laws l HasRoom
      → Laws (reference l) (λ r. ParentHasRoom HasRoom r.parent)
  unfolding acquire_reference acquire_parent release_reference release_parent
  reference_laws {HasRoom = HasRoom} laws = record {
    undoable = λ operation r room. undo operation r.ptr r.parent room;
  }
    where
      undo :
          (operation : String) (ptr : Pointer) (parent : Option H)
          → ParentHasRoom HasRoom parent
          → Undoable
              (reference l)
              (record { ptr = ptr; parent = parent })
              (acquire_reference l operation (record { ptr = ptr; parent = parent }))
      undo operation none parent room = (refl, refl)
      undo operation (some n) none room = (refl, refl)
      undo operation (some n) (some p) room =
          acquired_over-Undoable (some n) p (l.acquire operation p) (laws.undoable operation p room)

  pub reference-Refuses :
      (ptr : Pointer) (p : H) → Refuses l p → Refuses (reference l) (borrowed_from ptr p)
  unfolding acquire_reference acquire_parent acquired_over
  reference-Refuses none p refuses operation = refl
  reference-Refuses (some n) p refuses operation =
      ap (acquired_over l (borrowed_from (some n) p)) (refuses operation)

pub closed-Refuses :
    (type_name : String) (v : Owned) → v.closed ≡ true → Refuses (owned type_name) v
unfolding acquire
closed-Refuses type_name v c operation = ground arith

-- Once a handle is closed, a call on it is refused with the error of a closed handle, and so is a call on a
-- reference borrowed from it and on a reference that was read through that one; nothing changes. It
-- holds whatever calls were inside, and if the handle had been closed before.
pub close-Refuses :
    (type_name : String) (v : Owned) (borrowed child : Pointer)
    → let closed = (close type_name v).0 in
      Refuses (owned type_name) closed
      × Refuses (reference (owned type_name)) (borrowed_from borrowed closed)
      × Refuses
          (reference (reference (owned type_name)))
          (borrowed_from child (borrowed_from borrowed closed))
unfolding close take_locked
close-Refuses type_name v borrowed child =
    let refuses = closed-Refuses type_name (close type_name v).0 (ground arith) in
    let once = reference-Refuses (owned type_name) borrowed (close type_name v).0 refuses in
    (
      refuses,
      once,
      reference-Refuses (reference (owned type_name)) child
          (borrowed_from borrowed (close type_name v).0) once,
    )

-- A call through a reference keeps the parent's native object. For an open, unpoisoned parent with room
-- for one more call: the call is let in with the reference's pointer, a `Close` of the parent while
-- it runs releases nothing, and its end destroys the object if no other call is inside.
pub close-borrowed :
    (type_name operation : String) (v : Owned) (object borrowed : ℕ)
    → v.closed ≡ false
    → v.poison ≡ none
    → v.ptr ≡ some object
    → v.active + 1 < word
    → let (r, answer, effects) =
        acquire_reference (owned type_name) operation (borrowed_from (some borrowed) v) in
      let entered = (acquire operation v).0 in
      let (closed, failure, released) = close type_name entered in
      (answer ≡ ok (some borrowed))
      × (r ≡ borrowed_from (some borrowed) entered)
      × (released ≡ [])
      × ((release_reference (owned type_name) (borrowed_from (some borrowed) closed)).1
          ≡ (if v.active == 0 then deinit object ∷ [] else []))
unfolding acquire close release take_locked acquire_reference acquire_parent acquired_over
    release_reference release_parent cleanup
close-borrowed type_name operation v object borrowed o p q room = ground arith
