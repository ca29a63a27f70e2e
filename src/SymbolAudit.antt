-- ===== src/SymbolAudit.antt =====
-- The audit of recorded symbols (tests/symbol_audit/main.go, lines 15-110): every function of a
-- package's metadata names a symbol of its own that the generated bindings call.
-- The parsed document and the set of exported symbols are arguments. `cut_last s` stands for
-- `s[:strings.LastIndex(s, "_")]`, `none` for an index below 0.
pub mod Sound
use zigo.Prelude.{
  ℕ, Bool, true, false, not, Option, none, some, List, [], ◌∷◌, String, ◌<>◌, if◌then◌else◌,
}
use text.Mathlib.Text.{◌==◌ as str_eq, starts_with}

-- An element of `Functions`
pub record Function : Type 0 where
  pub name : String
  pub receiver : String
  pub namespace : String
  pub return_kind : String
  pub symbol : String

-- The errors of `audit`, with the identity and the symbol that they name
pub data AuditError : Type 0 where
  both_claim : String → String → String → AuditError
  no_prefix : String → String → AuditError
  no_segment : String → String → AuditError
  not_called : String → String → AuditError

-- `streamOperations`
abbrev pub stream_operations : String → Option (List String)
stream_operations kind =
    if str_eq kind "io_writer"
    then some ("_write" ∷ "_flush" ∷ [])
    else if str_eq kind "io_reader"
    then some ("_read" ∷ [])
    else none

unfoldable pub identity : Function → String
identity f =
    let owner = if str_eq f.receiver "" then f.namespace else f.receiver in
    if str_eq owner "" then f.name else owner <> "." <> f.name

-- `seen[symbol]`
abbrev pub lookup : String → List (String × String) → Option String
lookup symbol [] = none
lookup symbol ((s, id) ∷ rest) = if str_eq s symbol then some id else lookup symbol rest

module _ (exported : String → Bool) (cut_last : String → Option String) where
  -- The loop over the suffixes
  unfoldable pub audit_suffixes : String → String → List String → Option AuditError
  audit_suffixes id base [] = none
  audit_suffixes id base (suffix ∷ rest) =
      let more = audit_suffixes id base rest in
      if not (exported (base <> suffix)) then some (not_called id (base <> suffix)) else more

  unfoldable pub audit_cut : Function → List String → Option String → Option AuditError
  audit_cut f suffixes none = some (no_segment (identity f) f.symbol)
  audit_cut f suffixes (some base) = audit_suffixes (identity f) base suffixes

  unfoldable pub audit_operations : Function → Option (List String) → Option AuditError
  audit_operations f none =
      if not (exported f.symbol) then some (not_called (identity f) f.symbol) else none
  audit_operations f (some suffixes) = audit_cut f suffixes (cut_last f.symbol)

  -- The checks of one function after the test for a duplicate
  unfoldable pub audit_function : String → Function → Option AuditError
  audit_function prefix f =
      if not (starts_with f.symbol (prefix <> "_"))
      then some (no_prefix (identity f) f.symbol)
      else audit_operations f (stream_operations f.return_kind)

  abbrev pub or_else : Option AuditError → Option AuditError → Option AuditError
  or_else (some e) rest = some e
  or_else none rest = rest

  abbrev pub audit_next : String → Function → Option String → Option AuditError → Option AuditError
  audit_next prefix f (some previous) rest = some (both_claim previous (identity f) f.symbol)
  audit_next prefix f none rest = or_else (audit_function prefix f) rest

  -- The loop of `audit`, with the symbols seen so far; `none` is a nil error
  unfoldable pub audit : String → List (String × String) → List Function → Option AuditError
  audit prefix seen [] = none
  audit prefix seen (f ∷ rest) =
      let more = audit prefix ((f.symbol, identity f) ∷ seen) rest in
      audit_next prefix f (lookup f.symbol seen) more
