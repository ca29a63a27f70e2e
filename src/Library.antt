-- ===== src/Library.antt =====
-- The loader of the native shared library
-- (examples/11-io-streams/go-purego/internal/raw/raw_gen.go, lines 28-82 and 324-536).
-- The environment and the platform's dynamic loader are the parameter `System`; its answers depend on
-- the arguments alone. An address is a number. `required` has the symbols in the order in which
-- `loadCandidate` resolves them, and a value of `nativeBindings` is the list of their addresses.
pub mod Loading
use zigo.Prelude.{
  ℕ, Bool, true, false, not, Option, none, some, List, [], ◌∷◌, ◌++◌, String, if◌then◌else◌, ◌==◌,
}
use zigo.Errors.{GoError}
use zigo.Handle.Common.{is_nil}
use text.Mathlib.Text.{◌==◌ as str_eq}

-- A handle or an address, or the error instead
pub data Answer {ℓ} (E : Type ℓ) : Type ℓ where
  found : ℕ → Answer E
  failed : E → Answer E

-- `os.Getenv`, `openLibrary`, `resolveSymbol`, and `DefaultLibraryName` for the platform
pub record System : Type 0 where
  pub getenv : String → String
  pub open_library : String → Answer GoError
  pub resolve_symbol : ℕ → String → Answer GoError
  pub default_library_name : String

-- `LibraryError`: path, symbol, operation and cause. The first two causes are the values of
-- `errors.New` in `loadLibraryLocked`.
mutual
  pub data LibraryError : Type 0 where
    library_error : String → String → String → Cause → LibraryError

  pub data Cause : Type 0 where
    no_candidate : Cause
    another_loaded : Cause
    system : GoError → Cause
    joined : LibraryErrors → Cause

  pub data LibraryErrors : Type 0 where
    nil : LibraryErrors
    cons : LibraryError → LibraryErrors → LibraryErrors

-- The package variables, and the library handles that are open
pub record Loaded : Type 0 where
  pub bindings : Option (List ℕ)
  pub successful_library_path : String
  pub handles : List ℕ

abbrev pub required : List String
required =
    "zg_last_error_message" ∷ "zg_caught_panic_message" ∷ "zg_document_create"
    ∷ "zg_document_deinit" ∷ "zg_document_append" ∷ "zg_document_append_string"
    ∷ "zg_document_count" ∷ "zg_document_dump_purego_v2" ∷ "zg_document_load_purego_v2"
    ∷ "zg_document_read_into" ∷ "zg_sink_create" ∷ "zg_sink_write" ∷ "zg_sink_flush"
    ∷ "zg_sink_count" ∷ "zg_sink_deinit" ∷ "zg_sink_push" ∷ "zg_source_create" ∷ "zg_source_read"
    ∷ "zg_source_deinit" ∷ "zg_banner_purego_v2" ∷ "zg_tee_purego_v2" ∷ "zg_sum_codepoints"
    ∷ "zg_fill_codepoints" ∷ "zg_take_codepoints" ∷ "zg_free_codepoints" ∷ []

abbrev is_set : String → Bool
is_set s = not (str_eq s "")

abbrev library_env_vars : List String
library_env_vars = "ZIGO_STREAMS_LIBRARY_PATH" ∷ "ZIGO_LIBRARY_PATH" ∷ []

set_vars : System → List String → List String
set_vars os [] = []
set_vars os (name ∷ rest) =
    let more = set_vars os rest in if is_set (os.getenv name) then os.getenv name ∷ more else more

-- `libraryCandidates`
unfoldable pub library_candidates : System → String → List String
unfolding set_vars
library_candidates os explicit =
    if is_set explicit
    then explicit ∷ []
    else set_vars os library_env_vars
      ++ (if is_set os.default_library_name then os.default_library_name ∷ [] else [])

-- `closeLibrary`
abbrev close_library : ℕ → List ℕ → List ℕ
close_library handle [] = []
close_library handle (h ∷ rest) = if handle == h then rest else h ∷ close_library handle rest

-- The chain of `resolveSymbol` calls of `loadCandidate`: the addresses, or the first symbol that fails
abbrev pub Resolved : Type 0
Resolved = Option (String × GoError) × List ℕ

abbrev pub next_address : ℕ → Resolved → Resolved
next_address address (stop, rest) = (stop, address ∷ rest)

unfoldable pub resolve_all : System → ℕ → List String → Resolved
resolve_all os handle [] = (none, [])
resolve_all os handle (symbol ∷ rest) = elim (os.resolve_symbol handle symbol) [
  | found address ↦ next_address address (resolve_all os handle rest)
  | failed e ↦ (some (symbol, e), [])
]

-- The rest of `loadCandidate`, after the symbols and after `openLibrary`
unfoldable pub publish : String → ℕ → Loaded → Resolved → Loaded × Option LibraryError
publish path handle l (some (symbol, e), _) = (
  record l { handles = close_library handle l.handles },
  some (library_error path symbol "resolve" (system e)),
)
publish path handle l (none, addresses) = (record l { bindings = some addresses }, none)

unfoldable pub opened : System → String → Loaded → Answer GoError → Loaded × Option LibraryError
opened os path l (failed e) = (l, some (library_error path "" "open" (system e)))
opened os path l (found handle) =
    publish path handle (record l { handles = handle ∷ l.handles }) (resolve_all os handle required)

-- `loadCandidate`
unfoldable pub load_candidate : System → String → Loaded → Loaded × Option LibraryError
load_candidate os path l = opened os path l (os.open_library path)

abbrev pub appears : String → List String → Bool
appears s [] = false
appears s (t ∷ rest) = if str_eq t s then true else appears s rest

abbrev add : LibraryErrors → LibraryError → LibraryErrors
add nil e = cons e nil
add (cons x xs) e = cons x (add xs e)

-- What a load reports when every candidate failed: one error as it is, several joined
abbrev report : LibraryErrors → LibraryError
report (cons e nil) = e
report es = library_error "" "" "load" (joined es)

-- The loop of `loadLibraryLocked` over the candidates, after the failures `attempts`
unfoldable pub try_candidates :
    System → List String → LibraryErrors → Loaded → Loaded × Option LibraryError
try_candidates os [] attempts l = (l, some (report attempts))
try_candidates os (path ∷ rest) attempts l =
    let (l', outcome) = load_candidate os path l in
    elim outcome [
      | none ↦ (record l' { successful_library_path = path }, none)
      | some e ↦ try_candidates os rest (add attempts e) l'
    ]

-- `loadLibraryLocked`, after `libraryCandidates`
unfoldable pub load_from : System → List String → Loaded → Loaded × Option LibraryError
load_from os [] l = (l, some (library_error "" "" "load" no_candidate))
load_from os (path ∷ rest) l =
    if not (is_nil l.bindings)
    then (
      l,
      if appears l.successful_library_path (path ∷ rest)
          then none
          else some (library_error path "" "load" another_loaded),
    )
    else try_candidates os (path ∷ rest) nil l

-- `LoadLibrary`, which is `loadLibraryLocked` under its mutex
unfoldable pub load_library : System → String → Loaded → Loaded × Option LibraryError
load_library os explicit l = load_from os (library_candidates os explicit) l
