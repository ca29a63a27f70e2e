-- ===== src/SymbolAudit/Sound.antt =====
-- What a document that passes the audit can be relied on for.
use zigo.Prelude.{
  ℕ, zero, suc, ◌<◌, ◌≡◌, ◌≢◌, ◌⊎◌, inl, inr, sym, refl, Bool-cases, Bool, true, false, ◌&&◌,
  Option, none, some, List, [], ◌∷◌, String, ◌<>◌, get_elem?, arith,
}
use zigo.SymbolAudit.{
  Function, stream_operations, identity, lookup, audit_suffixes, audit_cut, audit_operations,
  audit_function, audit,
}
use text.Mathlib.Text.{◌==◌ as str_eq, starts_with}
use text.Mathlib.TextEquality.{eq_iff}

module _ (exported : String → Bool) (cut_last : String → Option String) where
  abbrev pub all_exported : String → List String → Bool
  all_exported base [] = true
  all_exported base (suffix ∷ rest) = exported (base <> suffix) && all_exported base rest

  abbrev pub is_cut : List String → Option String → Bool
  is_cut suffixes none = false
  is_cut suffixes (some base) = all_exported base suffixes

  -- The bindings call the function's symbol, or all operations of the stream that it hands out.
  abbrev pub is_called_as : String → Option (List String) → Bool
  is_called_as symbol none = exported symbol
  is_called_as symbol (some suffixes) = is_cut suffixes (cut_last symbol)

  audit_suffixes-none :
      (id base : String) (suffixes : List String)
      → audit_suffixes exported cut_last id base suffixes ≡ none
      → all_exported base suffixes ≡ true
  unfolding audit_suffixes
  audit_suffixes-none id base [] h = ground arith
  audit_suffixes-none id base (suffix ∷ rest) h = ground (arith, audit_suffixes-none id base rest)

  audit_cut-none :
      (f : Function) (suffixes : List String) (cut : Option String)
      → audit_cut exported cut_last f suffixes cut ≡ none
      → is_cut suffixes cut ≡ true
  unfolding audit_cut
  audit_cut-none f suffixes none h = ground arith
  audit_cut-none f suffixes (some base) h = audit_suffixes-none (identity f) base suffixes h

  audit_operations-none :
      (f : Function) (operations : Option (List String))
      → audit_operations exported cut_last f operations ≡ none
      → is_called_as f.symbol operations ≡ true
  unfolding audit_operations
  audit_operations-none f none h = ground arith
  audit_operations-none f (some suffixes) h = audit_cut-none f suffixes (cut_last f.symbol) h

  -- The bindings call both operations of a writer, or the one of a reader, under the symbol without its last
  -- segment.
  abbrev pub CallsWriter : String → Type 0
  CallsWriter symbol =
      (base : String) × (cut_last symbol ≡ some base)
      × (exported (base <> "_write") ≡ true)
      × (exported (base <> "_flush") ≡ true)

  abbrev pub CallsReader : String → Type 0
  CallsReader symbol =
      (base : String) × (cut_last symbol ≡ some base) × (exported (base <> "_read") ≡ true)

  -- What is called of a function, by the kind of what it returns
  abbrev pub IsCalled : Function → Type 0
  IsCalled f =
      ((f.return_kind ≡ "io_writer") × CallsWriter f.symbol)
      ⊎ ((f.return_kind ≡ "io_reader") × CallsReader f.symbol)
      ⊎ ((f.return_kind ≢ "io_writer") × (f.return_kind ≢ "io_reader") × (exported f.symbol ≡ true))

  cut-CallsWriter :
      (symbol : String) (cut : Option String)
      → cut_last symbol ≡ cut
      → is_cut ("_write" ∷ "_flush" ∷ []) cut ≡ true
      → CallsWriter symbol
  cut-CallsWriter symbol none e h = ground arith
  cut-CallsWriter symbol (some base) e h = (base, e, ground arith, ground arith)

  cut-CallsReader :
      (symbol : String) (cut : Option String)
      → cut_last symbol ≡ cut
      → is_cut ("_read" ∷ []) cut ≡ true
      → CallsReader symbol
  cut-CallsReader symbol none e h = ground arith
  cut-CallsReader symbol (some base) e h = (base, e, ground arith)

  str_eq-other : (s t : String) → str_eq s t ≡ false → s ≢ t
  str_eq-other s t h e = ground (arith, (eq_iff s t).1 e)

  is_called_as-IsCalled :
      (f : Function) → is_called_as f.symbol (stream_operations f.return_kind) ≡ true → IsCalled f
  is_called_as-IsCalled f h = elim (Bool-cases (str_eq f.return_kind "io_writer")) [
    | inl w ↦
        inl ((eq_iff f.return_kind "io_writer").0 w, cut-CallsWriter f.symbol _ refl (ground arith))
    | inr nw ↦ elim (Bool-cases (str_eq f.return_kind "io_reader")) [
      | inl r ↦ inr (
          inl (
            (eq_iff f.return_kind "io_reader").0 r,
            cut-CallsReader f.symbol _ refl (ground arith),
          ))
      | inr nr ↦ inr (inr (str_eq-other _ _ nw, str_eq-other _ _ nr, ground arith))
    ]
  ]

  -- What the audit checks of one function
  abbrev pub IsSound : String → Function → Type 0
  IsSound prefix f =
      (starts_with f.symbol (prefix <> "_") ≡ true)
      × (is_called_as f.symbol (stream_operations f.return_kind) ≡ true)

  audit_function-none :
      (prefix : String) (f : Function)
      → audit_function exported cut_last prefix f ≡ none
      → IsSound prefix f
  unfolding audit_function
  audit_function-none prefix f h =
      ground (arith, audit_operations-none f (stream_operations f.return_kind))

  audit-head :
      (prefix : String) (seen : List (String × String)) (f : Function) (rest : List Function)
      → audit exported cut_last prefix seen (f ∷ rest) ≡ none
      → (lookup f.symbol seen ≡ none)
        × IsSound prefix f
        × (audit exported cut_last prefix ((f.symbol, identity f) ∷ seen) rest ≡ none)
  unfolding audit
  audit-head prefix seen f rest h = ground (arith, audit_function-none prefix f)

  audit-none :
      (prefix : String) (seen : List (String × String)) (fs : List Function) (i : ℕ) {f : Function}
      → audit exported cut_last prefix seen fs ≡ none
      → get_elem? fs i ≡ some f
      → (lookup f.symbol seen ≡ none) × IsSound prefix f
  audit-none prefix seen [] i h at = ground arith
  audit-none prefix seen (g ∷ rest) zero h at = ground (arith, audit-head prefix seen g rest h)
  audit-none prefix seen (g ∷ rest) (suc i) {f = f} h at =
      let next = audit-head prefix seen g rest h in
      let later = audit-none prefix ((g.symbol, identity g) ∷ seen) rest i {f = f} next.2 at in
      ground (arith, later)

  lookup-head :
      (s t id : String) (seen : List (String × String))
      → lookup t ((s, id) ∷ seen) ≡ none
      → str_eq s t ≡ false
  lookup-head s t id seen h = ground arith

  audit-distinct :
      (prefix : String) (seen : List (String × String)) (fs : List Function) (i j : ℕ)
      (f g : Function)
      → audit exported cut_last prefix seen fs ≡ none
      → get_elem? fs i ≡ some f
      → get_elem? fs j ≡ some g
      → i < j
      → str_eq f.symbol g.symbol ≡ false
  audit-distinct prefix seen [] i j f g h at_i at_j before = ground arith
  audit-distinct prefix seen (x ∷ rest) zero zero f g h at_i at_j before = ground arith
  audit-distinct prefix seen (x ∷ rest) zero (suc j) f g h at_i at_j before =
      let next = audit-head prefix seen x rest h in
      let later = audit-none prefix ((x.symbol, identity x) ∷ seen) rest j {f = g} next.2 at_j in
      ground (arith, lookup-head x.symbol g.symbol (identity x) seen later.0)
  audit-distinct prefix seen (x ∷ rest) (suc i) zero f g h at_i at_j before = ground arith
  audit-distinct prefix seen (x ∷ rest) (suc i) (suc j) f g h at_i at_j before =
      let next = audit-head prefix seen x rest h in
      audit-distinct prefix ((x.symbol, identity x) ∷ seen) rest i j f g next.2 at_i at_j
        (omega arith)

  audit-apart :
      (prefix : String) (fs : List Function) (i j : ℕ) (f g : Function)
      → audit exported cut_last prefix [] fs ≡ none
      → get_elem? fs i ≡ some f
      → get_elem? fs j ≡ some g
      → (i ≡ j) ⊎ (i < j) ⊎ (j < i)
      → (i ≡ j) ⊎ (f.symbol ≢ g.symbol)
  audit-apart prefix fs i j f g h at_i at_j (inl same) = inl same
  audit-apart prefix fs i j f g h at_i at_j (inr (inl before)) =
      inr (str_eq-other f.symbol g.symbol (audit-distinct prefix [] fs i j f g h at_i at_j before))
  audit-apart prefix fs i j f g h at_i at_j (inr (inr after)) = inr (λ e.
      str_eq-other g.symbol f.symbol (audit-distinct prefix [] fs j i g f h at_j at_i after)
        (sym e))

  -- A document that passes the audit, of one function or more: every function's symbol carries the prefix
  -- and is called by the bindings, for a function that returns a writer its _write and _flush, and for one
  -- that returns a reader its _read; and no two functions claim one symbol.
  pub audit-IsSound :
      (prefix : String) (fs : List Function) (i j : ℕ) {f g : Function}
      → audit exported cut_last prefix [] fs ≡ none
      → get_elem? fs i ≡ some f
      → get_elem? fs j ≡ some g
      → (starts_with f.symbol (prefix <> "_") ≡ true)
        × IsCalled f
        × ((i ≡ j) ⊎ (f.symbol ≢ g.symbol))
  audit-IsSound prefix fs i j {f = f} {g = g} h at_i at_j =
      let sound = (audit-none prefix [] fs i {f = f} h at_i).1 in
      (
        sound.0,
        is_called_as-IsCalled f sound.1,
        audit-apart prefix fs i j f g h at_i at_j (omega arith),
      )
