-- ===== src/Registry/Dispatch.antt =====
-- Which methods a handle gets, and what a poisoning reaches.
use zigo.Prelude.{
  ℕ, ◌≡◌, ◌∙◌, refl, Bool, true, false, Option, none, some, List, [], ◌∷◌, if◌then◌else◌, ◌==◌,
  arith,
}
use zigo.Errors.{NativePanicError, native_panic_error}
use zigo.Handle.Common.{is_nil}
use zigo.Registry.{
  Object, Handle, Methods, Registry, Answer, answered, unregistered, register, register_all,
  and_then, with_entry, methods_of, poison, poison_each, poison_after_panic,
}

-- Every handle of the list that is not nil
abbrev pub All : (Object → Type 0) → List Handle → Type 0
All P [] = Unit {0}
All P (none ∷ rest) = All P rest
All P (some h ∷ rest) = P h × All P rest

module _ {W : Type 0} where
  -- The type is registered by none of the calls.
  abbrev pub is_absent : ℕ → List (ℕ × Methods W) → Bool
  is_absent key [] = true
  is_absent key ((k, methods) ∷ rest) =
      let more = is_absent key rest in if k == key then false else more

  -- No type is registered twice.
  abbrev pub is_distinct : List (ℕ × Methods W) → Bool
  is_distinct [] = true
  is_distinct ((k, methods) ∷ rest) =
      let more = is_distinct rest in if is_absent k rest then more else false

  -- The methods that the calls give for a type
  abbrev pub given : ℕ → List (ℕ × Methods W) → Option (Methods W)
  given key [] = none
  given key ((k, methods) ∷ rest) =
      let more = given key rest in if k == key then some methods else more

  register_all-absent :
      (key : ℕ) (entries : List (ℕ × Methods W)) (registry : Registry W)
      → is_absent key entries ≡ true
      → register_all entries registry key ≡ registry key
  unfolding register_all register
  register_all-absent key [] registry h = refl
  register_all-absent key ((k, methods) ∷ rest) registry h =
      register_all-absent key rest (register k methods registry) (ground arith) ∙ ground arith

  register_all-given :
      (key : ℕ) (entries : List (ℕ × Methods W)) (registry : Registry W)
      → is_distinct entries ≡ true
      → registry key ≡ none
      → register_all entries registry key ≡ given key entries
  unfolding register_all register
  register_all-given key [] registry h fresh = fresh
  register_all-given key ((k, methods) ∷ rest) registry h fresh =
      let later = register_all-given key rest (register k methods registry) (ground arith) in
      let own = register_all-absent key rest (register k methods registry) in
      ground (arith, later, own)

  -- What a poisoned handle is, and that the registered types' methods make and keep it so
  pub record Laws (registry : Registry W) (IsPoisoned : Object → W → Type 0) : Type 0 where
    pub makes :
        (h : Object) (entry : Methods W) (cause : NativePanicError) (w : W)
        → registry h.type_of ≡ some entry
        → IsPoisoned h (entry.poison h.address cause w)
    pub keeps :
        (o h : Object) (entry : Methods W) (cause : NativePanicError) (w : W)
        → registry h.type_of ≡ some entry
        → IsPoisoned o w
        → IsPoisoned o (entry.poison h.address cause w)

  -- The call came back, in a state with a property.
  abbrev pub Comes : (W → Type 0) → Answer W → Type 0
  Comes P (answered w) = P w
  Comes P (unregistered o) = ⊥

  and_then-Comes :
      (P Q : W → Type 0) (a : Answer W) (f : W → Answer W)
      → Comes P a
      → ((w : W) → P w → Comes Q (f w))
      → Comes Q (and_then a f)
  unfolding and_then
  and_then-Comes P Q (answered w) f p step = step w p
  and_then-Comes P Q (unregistered o) f p step = p

  Comes-both : (P Q : W → Type 0) (a : Answer W) → Comes P a → Comes Q a → Comes (λ w. P w × Q w) a
  Comes-both P Q (answered w) p q = (p, q)
  Comes-both P Q (unregistered o) p q = p

  with_entry-Comes :
      (P : W → Type 0) (h : Object) (f : Methods W → W) (found : Option (Methods W))
      → is_nil found ≡ false
      → ((entry : Methods W) → found ≡ some entry → P (f entry))
      → Comes P (with_entry h f found)
  unfolding with_entry
  with_entry-Comes P h f none here p = ground arith
  with_entry-Comes P h f (some entry) here p = p entry refl

  module _ (registry : Registry W) (IsPoisoned : Object → W → Type 0) (cause : NativePanicError)
      (laws : Laws registry IsPoisoned) where
    abbrev IsRegistered : Object → Type 0
    IsRegistered h = is_nil (registry h.type_of) ≡ false

    poison-keeps :
        (o h : Object) (w : W)
        → IsRegistered h
        → IsPoisoned o w
        → Comes (IsPoisoned o) (poison registry cause (some h) w)
    unfolding poison methods_of
    poison-keeps o h w here p =
        with_entry-Comes (IsPoisoned o) h (λ entry. entry.poison h.address cause w)
          (registry h.type_of) here (λ entry e. laws.keeps o h entry cause w e p)

    poison-makes :
        (h : Object) (w : W)
        → IsRegistered h
        → Comes (IsPoisoned h) (poison registry cause (some h) w)
    unfolding poison methods_of
    poison-makes h w here =
        with_entry-Comes (IsPoisoned h) h (λ entry. entry.poison h.address cause w)
          (registry h.type_of) here (λ entry e. laws.makes h entry cause w e)

    poison_each-keeps :
        (o : Object) (handles : List Handle) (w : W)
        → All IsRegistered handles
        → IsPoisoned o w
        → Comes (IsPoisoned o) (poison_each registry cause handles w)
    unfolding poison_each and_then poison
    poison_each-keeps o [] w all p = p
    poison_each-keeps o (none ∷ rest) w all p = poison_each-keeps o rest w all p
    poison_each-keeps o (some h ∷ rest) w all p =
        and_then-Comes (IsPoisoned o) (IsPoisoned o) (poison registry cause (some h) w) _
          (poison-keeps o h w all.0 p) (λ w' p'. poison_each-keeps o rest w' all.1 p')

    poison_each-All :
        (handles : List Handle) (w : W)
        → All IsRegistered handles
        → Comes (λ w'. All (λ h. IsPoisoned h w') handles) (poison_each registry cause handles w)
    unfolding poison_each and_then poison
    poison_each-All [] w all = tt
    poison_each-All (none ∷ rest) w all = poison_each-All rest w all
    poison_each-All (some h ∷ rest) w all =
        and_then-Comes (IsPoisoned h) (λ w'. IsPoisoned h w' × All (λ q. IsPoisoned q w') rest)
          (poison registry cause (some h) w) (λ w'. poison_each registry cause rest w')
          (poison-makes h w all.0)
          (λ w' p.
            Comes-both (IsPoisoned h) (λ w''. All (λ q. IsPoisoned q w'') rest)
              (poison_each registry cause rest w') (poison_each-keeps h rest w' all.1 p)
              (poison_each-All rest w' all.1))

    -- After a Zig panic `PoisonAfterPanic` comes back with every handle of its list poisoned, also one that is
    -- named twice, provided that each is nil or of a registered type, and that the `Poison` of a
    -- registered type poisons its own handle and leaves the others poisoned.
    pub poison_after_panic-All :
        (handles : List Handle) (w : W)
        → All (λ h. is_nil (registry h.type_of) ≡ false) handles
        → Comes
            (λ w'. All (λ h. IsPoisoned h w') handles)
            (poison_after_panic registry (native_panic_error cause) handles w)
    unfolding poison_after_panic
    poison_after_panic-All handles w all = poison_each-All handles w all
