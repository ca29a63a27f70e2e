-- ===== src/Handle/Lifecycle.antt =====
-- What the methods of a generated package use of a handle type: the functions that the package registers
-- with the lifecycle package (event_queue_runtime_gen.go, lines 30-36), as one interface.
pub mod Instances
use zigo.Prelude.{ℕ, ◌≡◌, [], List, String}
use zigo.Errors.{GoError, NativePanicError}
use zigo.Handle.Common.{Pointer, Result, ok, err, Effect}

pub record Lifecycle (H : Type 0) : Type 0 where
  -- `Acquire`, and what is called out on the way
  pub acquire : String → H → H × Result Pointer × List Effect
  -- `Release`
  pub release : H → H × List Effect
  -- `Poison`
  pub poison : NativePanicError → H → H

-- An answer of `Acquire` was a refusal that changed nothing, or a grant that `Release` undoes.
abbrev pub Undoable : {H : Type 0} → Lifecycle H → H → H × Result Pointer × List Effect → Type 0
Undoable l h (h', err x, effects) = (h' ≡ h) × (effects ≡ [])
Undoable l h (h', ok p, effects) = (l.release h' ≡ (h, [])) × (effects ≡ [])

-- What a client may count on, for a handle that has room for another call
pub record Laws {H : Type 0} (l : Lifecycle H) (HasRoom : H → Type 0) : Type 0 where
  pub undoable : (operation : String) (h : H) → HasRoom h → Undoable l h (l.acquire operation h)
