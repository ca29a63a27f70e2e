-- ===== src/Transient/Contexts/Owning.antt =====
-- A callback context and the handle that it is borrowed from.
use zigo.Prelude.{◌+◌, ◌<◌, ◌≡◌, ap, true, false, List, [], String, word, if_cases, arith}
use zigo.Handle.Common.{Pointer, Result, ok, err, Effect}
use zigo.Handle.Lifecycle.{Lifecycle, Undoable, Laws}
use zigo.Transient.Contexts.{
  CallbackContext, acquire, release, pin, pin_after, settle, take_locked, context,
}

-- The context has room, and so has its owner if there is one.
abbrev pub BothHaveRoom : {H : Type 0} → (H → Type 0) → CallbackContext × H → Type 0
BothHaveRoom HasRoom (c, h) = (c.active + 1 < word) × HasRoom h

module _ {H : Type 0} (l : Lifecycle H) where
  alone-Undoable :
      (operation : String) (c : CallbackContext) (h : H)
      → c.linked ≡ false
      → c.active + 1 < word
      → Undoable (context l) (c, h) (settle l false h [] (pin operation c))
  unfolding settle pin release take_locked
  alone-Undoable operation c h free room = ground arith

  owned-Undoable :
      (operation : String) (c : CallbackContext) (h : H) (answer : H × Result Pointer × List Effect)
      → c.linked ≡ true
      → c.active + 1 < word
      → Undoable l h answer
      → Undoable (context l) (c, h) (pin_after l operation c answer)
  unfolding pin_after settle pin release take_locked
  owned-Undoable operation c h (h', err e, effects) linked room (same, quiet) =
      (ap (λ h. (c, h)) same, quiet)
  owned-Undoable operation c h (h', ok ptr, effects) linked room (back, quiet) =
      ground (arith, back, quiet)

  -- A context whose owner keeps the laws of a handle keeps them too.
  pub context_laws :
      {HasRoom : H → Type 0} → Laws l HasRoom → Laws (context l) (BothHaveRoom HasRoom)
  unfolding acquire
  context_laws {HasRoom = HasRoom} laws = record { undoable = undo }
    where
      undo :
          (operation : String) (both : CallbackContext × H)
          → BothHaveRoom HasRoom both
          → Undoable (context l) both (acquire l operation both)
      undo operation (c, h) (room, owner_room) =
          if_cases (Undoable (context l) (c, h)) c.linked
            (λ linked.
              owned-Undoable operation c h (l.acquire operation h) linked room
                (laws.undoable operation h owner_room))
            (λ free. alone-Undoable operation c h free room)
