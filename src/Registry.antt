-- ===== src/Registry.antt =====
-- The registry of handle types of the lifecycle package
-- (examples/07-event-queue/go/internal/lifecycle/lifecycle_gen.go, lines 28-141), by which generated
-- packages that share a module call each other's handles.
-- `W` is the state of all handles. A `reflect.Type` is a number, and a handle is nil or a type with the
-- address of an object; a nil pointer of a handle type is a handle too, with the address 0, and what
-- the type's methods make of it is theirs.
pub mod Instances
pub mod Dispatch
use zigo.Prelude.{
  ℕ, Bool, true, false, Option, none, some, List, [], ◌∷◌, String, if◌then◌else◌, ◌==◌,
}
use zigo.Errors.{GoError, NativePanicError, native_panic_error, handle_error}
use zigo.Handle.Common.{Pointer, Result, ok, err}

pub record Object : Type 0 where
  pub type_of : ℕ
  pub address : ℕ

-- `Handle` and `ChildHandle`
abbrev pub Handle : Type 0
Handle = Option Object

-- `Methods`; `AcquireChild` and `DropChild` are both given or both nil.
pub record Methods (W : Type 0) : Type 0 where
  pub acquire : ℕ → String → W → W × Result Pointer
  pub release : ℕ → W → W
  pub poison : ℕ → NativePanicError → W → W
  pub acquire_child : Option (ℕ → String → W → W × Result (Pointer × Handle))
  pub drop_child : ℕ → W → W

-- The map `registry`
abbrev pub Registry : Type 0 → Type 0
Registry W = ℕ → Option (Methods W)

-- A call of the package: `methodsOf` panics for a type that nobody registered.
pub data Answer (A : Type 0) : Type 0 where
  answered : A → Answer A
  unregistered : Object → Answer A

module _ {W : Type 0} where
  unfoldable pub empty : Registry W
  empty type_of = none

  -- `Register`
  unfoldable pub register : ℕ → Methods W → Registry W → Registry W
  register key methods registry type_of = if key == type_of then some methods else registry type_of

  -- The calls of `Register` that the packages make when they are initialised, the first first
  unfoldable pub register_all : List (ℕ × Methods W) → Registry W → Registry W
  register_all [] registry = registry
  register_all ((key, methods) ∷ rest) registry = register_all rest (register key methods registry)

  -- `methodsOf`, and what the caller does with the entry
  unfoldable pub with_entry :
      {A : Type 0} → Object → (Methods W → A) → Option (Methods W) → Answer A
  with_entry handle f none = unregistered handle
  with_entry handle f (some entry) = answered (f entry)

  unfoldable pub methods_of : {A : Type 0} → Registry W → Object → (Methods W → A) → Answer A
  unfolding with_entry
  methods_of registry handle f = with_entry handle f (registry handle.type_of)

  -- `Acquire`, and `CheckedPointer`
  unfoldable pub acquire : Registry W → String → Handle → W → Answer (W × Result Pointer)
  acquire registry operation none w = answered (w, err (handle_error operation))
  acquire registry operation (some h) w =
      methods_of registry h (λ entry. entry.acquire h.address operation w)

  -- `OptionalPointer`
  unfoldable pub optional_pointer :
      Registry W → String → Bool → Handle → W → Answer (W × Result Pointer)
  optional_pointer registry operation absent handle w =
      if absent then answered (w, ok none) else acquire registry operation handle w

  -- `Release`
  unfoldable pub release : Registry W → Handle → W → Answer W
  release registry none w = answered w
  release registry (some h) w = methods_of registry h (λ entry. entry.release h.address w)

  -- `Poison`
  unfoldable pub poison : Registry W → NativePanicError → Handle → W → Answer W
  poison registry cause none w = answered w
  poison registry cause (some h) w = methods_of registry h (λ entry. entry.poison h.address cause w)

  unfoldable pub reserved :
      String → W → Option (W → W × Result (Pointer × Handle)) → W × Result (Pointer × Handle)
  reserved operation w none = (w, err (handle_error operation))
  reserved operation w (some f) = f w

  abbrev pub bound :
      Object
      → String
      → Option (ℕ → String → W → W × Result (Pointer × Handle))
      → Option (W → W × Result (Pointer × Handle))
  bound h operation none = none
  bound h operation (some f) = some (f h.address operation)

  -- `AcquireChild`
  unfoldable pub acquire_child :
      Registry W → String → Handle → W → Answer (W × Result (Pointer × Handle))
  acquire_child registry operation none w = answered (w, err (handle_error operation))
  acquire_child registry operation (some h) w =
      methods_of registry h (λ entry. reserved operation w (bound h operation entry.acquire_child))

  abbrev pub dropped :
      Methods W → ℕ → W → Option (ℕ → String → W → W × Result (Pointer × Handle)) → W
  dropped entry address w none = w
  dropped entry address w (some f) = entry.drop_child address w

  -- `DropChild`
  unfoldable pub drop_child : Registry W → Handle → W → Answer W
  drop_child registry none w = answered w
  drop_child registry (some h) w =
      methods_of registry h (λ entry. dropped entry h.address w entry.acquire_child)

  -- A panic of `methodsOf` ends what follows.
  unfoldable pub and_then : Answer W → (W → Answer W) → Answer W
  and_then (answered w) f = f w
  and_then (unregistered o) f = unregistered o

  -- The loop of `PoisonAfterPanic`
  unfoldable pub poison_each : Registry W → NativePanicError → List Handle → W → Answer W
  poison_each registry cause [] w = answered w
  poison_each registry cause (h ∷ rest) w =
      and_then (poison registry cause h w) (λ w'. poison_each registry cause rest w')

  -- `PoisonAfterPanic`, which returns the error that it is given
  unfoldable pub poison_after_panic : Registry W → GoError → List Handle → W → Answer W
  poison_after_panic registry (native_panic_error cause) handles w =
      poison_each registry cause handles w
  poison_after_panic registry e handles w = answered w
