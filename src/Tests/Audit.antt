-- ===== src/Tests/Audit.antt =====
-- A document of two functions that passes the audit.
use zigo.Prelude.{◌≡◌, ◌≢◌, ◌⊎◌, ◌<>◌, ℕ, refl, Bool, true, Option, some, [], ◌∷◌, String}
use zigo.SymbolAudit.{Function, audit, audit_function, audit_operations, audit_cut, audit_suffixes}
use zigo.SymbolAudit.Sound.{IsCalled, audit-IsSound}
use text.Mathlib.Text.{starts_with}

abbrev exported : String → Bool
exported symbol = true

abbrev cut_last : String → Option String
cut_last symbol = some "zg_sink"

abbrev create : Function
create = record {
  name = "create";
  receiver = "";
  namespace = "Sink";
  return_kind = "handle";
  symbol = "zg_sink_create";
}

abbrev writer : Function
writer = record {
  name = "writer";
  receiver = "Sink";
  namespace = "";
  return_kind = "io_writer";
  symbol = "zg_sink_writer";
}

audit-IsSound_example :
    (starts_with writer.symbol ("zg" <> "_") ≡ true)
    × IsCalled exported cut_last writer
    × (◌≡◌ {A = ℕ} 1 0 ⊎ (writer.symbol ≢ create.symbol))
unfolding audit audit_function audit_operations audit_cut audit_suffixes
audit-IsSound_example =
    audit-IsSound exported cut_last "zg" (create ∷ writer ∷ []) 1 0 refl refl refl
