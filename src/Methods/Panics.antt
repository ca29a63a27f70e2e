-- ===== src/Methods/Panics.antt =====
-- Which panic of a callback a method has to resume, described without the loop that looks for it
-- (event_queue_runtime_gen.go, lines 87-101).
use zigo.Prelude.{
  ℕ, ◌≡◌, refl, Option, none, some, List, [], ◌∷◌, String, if◌then◌else◌, ◌==◌, arith,
}
use zigo.Errors.{GoError, PanicValue, callback_panic_error}
use zigo.Methods.{Runtime, Native, rethrow, sweep}

-- The panic recorded behind a handle; the handle 0 has none.
abbrev pub behind : (ℕ → Option PanicValue) → ℕ → Option PanicValue
behind recorded handle = if handle == 0 then none else recorded handle

abbrev pub first_of : Option PanicValue → Option PanicValue → Option PanicValue
first_of (some value) later = some value
first_of none later = later

-- The first panic recorded behind some handles
abbrev pub first_recorded : (ℕ → Option PanicValue) → List ℕ → Option PanicValue
first_recorded recorded [] = none
first_recorded recorded (handle ∷ rest) =
    first_of (behind recorded handle) (first_recorded recorded rest)

abbrev pub as_error : String → Option PanicValue → Option GoError
as_error operation none = none
as_error operation (some value) = some (callback_panic_error operation value)

-- What a method panics with that names these handles, after a native call: nothing if no panic is pending
abbrev pub raised : String → Native → List ℕ → Option GoError
raised operation native handles =
    if native.pending == 0
    then none
    else as_error operation (first_recorded native.recorded handles)

rethrow-first_recorded :
    (operation : String) (handles : List ℕ) (s : Runtime)
    → (rethrow operation handles s).1 ≡ as_error operation (first_recorded s.recorded handles)
unfolding rethrow
rethrow-first_recorded operation [] s = refl
rethrow-first_recorded operation (handle ∷ rest) s =
    ground (arith, rethrow-first_recorded operation rest s)

-- The sweep finds exactly the panic that it has to.
pub sweep-raised :
    (operation : String) (native : Native) (handles : List ℕ) (s : Runtime)
    → (sweep operation native handles s).1 ≡ raised operation native handles
unfolding sweep
sweep-raised operation native handles s =
    ground
      (arith, rethrow-first_recorded operation handles (record s { recorded = native.recorded }))
