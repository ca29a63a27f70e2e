-- ===== src/Library/Loading.antt =====
-- What a load leaves behind.
use zigo.Prelude.{
  ℕ, ◌≡◌, ◌↔◌, ◌⊎◌, inl, inr, refl, subst, true, false, not, Option, none, some, List, [], ◌∷◌,
  String, arith, if_intro,
}
use zigo.Errors.{GoError}
use zigo.Handle.Common.{is_nil}
use zigo.Library.{
  System, Answer, found, failed, Loaded, LibraryError, LibraryErrors, nil, Resolved, next_address,
  required, resolve_all, load_candidate, publish, opened, load_from, add, appears, try_candidates,
  library_candidates, load_library,
}
use text.Mathlib.TextEquality.{eq_iff}
use text.Mathlib.Text.{◌==◌ as str_eq}

-- The addresses are those that the loader answers for the symbols, one for each.
abbrev pub Resolves : System → ℕ → List String → List ℕ → Type 0
Resolves os handle [] [] = Unit {0}
Resolves os handle (symbol ∷ rest) (address ∷ addresses) =
    (os.resolve_symbol handle symbol ≡ found address) × Resolves os handle rest addresses
Resolves os handle _ _ = ⊥

-- A load that succeeded with `path`: the library that it opened there is open besides those before, and the
-- bindings are the addresses that this library gives for the required symbols.
abbrev pub IsPublished : System → String → Loaded → Loaded → Type 0
IsPublished os path l l' =
    (handle : ℕ) × (addresses : List ℕ) × (os.open_library path ≡ found handle)
    × Resolves os handle required addresses
    × (l'.bindings ≡ some addresses)
    × (l'.successful_library_path ≡ path)
    × (l'.handles ≡ handle ∷ l.handles)

resolve_all-Resolves :
    (os : System) (handle : ℕ) (symbols : List String)
    → (is_nil (resolve_all os handle symbols).0 ≡ false)
      ⊎ Resolves os handle symbols (resolve_all os handle symbols).1
unfolding resolve_all
resolve_all-Resolves os handle [] = inr tt
resolve_all-Resolves os handle (symbol ∷ rest) =
    answered os handle symbol rest (os.resolve_symbol handle symbol) refl
      (resolve_all-Resolves os handle rest)
  where
    answered :
        (os : System) (handle : ℕ) (symbol : String) (rest : List String) (answer : Answer GoError)
        → os.resolve_symbol handle symbol ≡ answer
        → (is_nil (resolve_all os handle rest).0 ≡ false)
          ⊎ Resolves os handle rest (resolve_all os handle rest).1
        → let r : Resolved = elim answer [
          | found address ↦ next_address address (resolve_all os handle rest)
          | failed e ↦ (some (symbol, e), [])
        ] in
          (is_nil r.0 ≡ false) ⊎ Resolves os handle (symbol ∷ rest) r.1
    answered os handle symbol rest (failed e) a more = inl refl
    answered os handle symbol rest (found address) a (inl stopped) = inl stopped
    answered os handle symbol rest (found address) a (inr resolved) = inr (a, resolved)

-- What one candidate leaves: it is published, or nothing has changed.
abbrev Settled : System → String → Loaded → Loaded × Option LibraryError → Type 0
Settled os path l (l', e) =
    ((e ≡ none) × IsPublished os path l (record l' { successful_library_path = path }))
    ⊎ ((is_nil e ≡ false) × (l' ≡ l))

publish-Settled :
    (os : System) (path : String) (handle : ℕ) (l : Loaded) (r : Resolved)
    → os.open_library path ≡ found handle
    → (is_nil r.0 ≡ false) ⊎ Resolves os handle required r.1
    → Settled os path l (publish path handle (record l { handles = handle ∷ l.handles }) r)
unfolding publish
publish-Settled os path handle l (some (symbol, e), addresses) o h = ground arith
publish-Settled os path handle l (none, addresses) o (inl stopped) = ground arith
publish-Settled os path handle l (none, addresses) o (inr resolved) =
    inl (refl, (handle, addresses, o, resolved, refl, refl, refl))

opened-Settled :
    (os : System) (path : String) (l : Loaded) (answer : Answer GoError)
    → os.open_library path ≡ answer
    → Settled os path l (opened os path l answer)
unfolding opened
opened-Settled os path l (failed e) o = ground arith
opened-Settled os path l (found handle) o =
    publish-Settled os path handle l _ o (resolve_all-Resolves os handle required)

load_candidate-Settled :
    (os : System) (path : String) (l : Loaded) → Settled os path l (load_candidate os path l)
unfolding load_candidate
load_candidate-Settled os path l = opened-Settled os path l (os.open_library path) refl

-- All or nothing, for the candidates in order
abbrev pub AllOrNothing : System → List String → Loaded → Loaded × Option LibraryError → Type 0
AllOrNothing os paths l (l', e) =
    ((e ≡ none) × ((path : String) × (appears path paths ≡ true) × IsPublished os path l l'))
    ⊎ ((is_nil e ≡ false) × (l' ≡ l))

appears-head : (s : String) (rest : List String) → appears s (s ∷ rest) ≡ true
appears-head s rest = rw ((eq_iff s s).1 refl) refl

appears-tail :
    (s t : String) (rest : List String) → appears s rest ≡ true → appears s (t ∷ rest) ≡ true
appears-tail s t rest h = if_intro (λ b. b ≡ true) (str_eq t s) (λ _. refl) h

AllOrNothing-tail :
    (os : System) (path : String) (rest : List String) (l : Loaded)
    (r : Loaded × Option LibraryError)
    → AllOrNothing os rest l r
    → AllOrNothing os (path ∷ rest) l r
AllOrNothing-tail os path rest l r (inl (none_left, (found_path, among, published))) =
    inl (none_left, (found_path, appears-tail found_path path rest among, published))
AllOrNothing-tail os path rest l r (inr h) = inr h

tried-AllOrNothing :
    (os : System) (path : String) (rest : List String) (l : Loaded)
    (next : LibraryError → Loaded → Loaded × Option LibraryError) (r : Loaded × Option LibraryError)
    → Settled os path l r
    → ((e : LibraryError) (l' : Loaded) → AllOrNothing os rest l' (next e l'))
    → AllOrNothing os (path ∷ rest) l (elim r.1 [
      | none ↦ (record r.0 { successful_library_path = path }, none)
      | some e ↦ next e r.0
    ])
tried-AllOrNothing os path rest l next (l', none) (inl (_, published)) h =
    inl (refl, (path, appears-head path rest, published))
tried-AllOrNothing os path rest l next (l', none) (inr (failed_too, same)) h = ground arith
tried-AllOrNothing os path rest l next (l', some e) (inl (no_error, _)) h = ground arith
tried-AllOrNothing os path rest l next (l', some e) (inr (_, same)) h =
    AllOrNothing-tail os path rest l _
      (subst (λ k. AllOrNothing os rest k (next e l')) same (h e l'))

try_candidates-AllOrNothing :
    (os : System) (paths : List String) (attempts : LibraryErrors) (l : Loaded)
    → AllOrNothing os paths l (try_candidates os paths attempts l)
unfolding try_candidates
try_candidates-AllOrNothing os [] attempts l = inr (refl, refl)
try_candidates-AllOrNothing os (path ∷ rest) attempts l =
    tried-AllOrNothing os path rest l (λ e. try_candidates os rest (add attempts e)) _
      (load_candidate-Settled os path l) (λ e. try_candidates-AllOrNothing os rest (add attempts e))

load_from-AllOrNothing :
    (os : System) (paths : List String) (l : Loaded)
    → l.bindings ≡ none
    → AllOrNothing os paths l (load_from os paths l)
unfolding load_from
load_from-AllOrNothing os [] l empty = inr (refl, refl)
load_from-AllOrNothing os (path ∷ rest) l empty =
    if_intro (AllOrNothing os (path ∷ rest) l) (not (is_nil l.bindings)) (λ loaded. ground arith)
      (try_candidates-AllOrNothing os (path ∷ rest) nil l)

load_from-again :
    (os : System) (paths : List String) (l : Loaded)
    → is_nil l.bindings ≡ false
    → ((load_from os paths l).0 ≡ l)
      × (((load_from os paths l).1 ≡ none) ↔ (appears l.successful_library_path paths ≡ true))
unfolding load_from
load_from-again os [] l loaded = ground arith
load_from-again os (path ∷ rest) l loaded = ground arith

-- While no library is loaded, `LoadLibrary` publishes all bindings or changes nothing: if it reports an
-- error, then no binding, path or open library has changed, so that the load can be tried again; if it
-- succeeds, then the path is one of the candidates, the library that the system opened for it is open
-- besides those before, and each of the symbols of `required`, in order, has the address that the system
-- resolves it to in that library.
pub load_library-AllOrNothing :
    (os : System) (explicit : String) (l : Loaded)
    → l.bindings ≡ none
    → AllOrNothing os (library_candidates os explicit) l (load_library os explicit l)
unfolding load_library
load_library-AllOrNothing os explicit l empty =
    load_from-AllOrNothing os (library_candidates os explicit) l empty

-- Once a library is loaded, it stays: `LoadLibrary` with its path, or with candidates that include it,
-- reports success, any other path an error, and neither changes anything.
pub load_library-again :
    (os : System) (explicit : String) (l : Loaded)
    → is_nil l.bindings ≡ false
    → ((load_library os explicit l).0 ≡ l)
      × (((load_library os explicit l).1 ≡ none)
          ↔ (appears l.successful_library_path (library_candidates os explicit) ≡ true))
unfolding load_library
load_library-again os explicit l loaded =
    load_from-again os (library_candidates os explicit) l loaded
