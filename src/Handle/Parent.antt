-- ===== src/Handle/Parent.antt =====
-- What a dependent handle asks of the handle that it belongs to: the functions of the lifecycle
-- package, which dispatch to the parent's methods, over the parent's own state `P`.
use zigo.Prelude.{List, String}
use zigo.Errors.{NativePanicError}
use zigo.Handle.Common.{Pointer, Result, Effect}

pub record Parent (P : Type 0) : Type 0 where
  -- `lifecycle.Acquire`
  pub acquire : String → P → P × Result Pointer
  -- `lifecycle.Release`
  pub release : P → P × List Effect
  -- `lifecycle.Poison`
  pub poison : NativePanicError → P → P
  -- `lifecycle.AcquireChild`
  pub acquire_child : String → P → P × Result Pointer
  -- `lifecycle.DropChild`
  pub drop_child : P → P
