-- ===== src/Methods/Terminals.antt =====
-- `NewTerminal` with its options (event_queue_gen.go, lines 923-979). A `*uint32` is none or a value;
-- the widths of the numbers are the caller's.
use zigo.Prelude.{ℕ, ◌≡◌, refl, Option, none, some, List, [], ◌∷◌, map, String, if◌then◌else◌}
use zigo.Prelude.Int.{ℤ, pos, ==ℤ}
use zigo.Errors.Classify.{error_for_code}
use zigo.Handle.Common.{Pointer, Result, ok, err}
use zigo.Handle.Terminal as Handles
use zigo.Handle.Terminal.{Terminal}
use zigo.Methods.Plain.{Raw}

pub record TerminalOptions : Type 0 where
  pub rows : ℕ
  pub max_scrollback_bytes : ℕ
  pub blink_interval_ms : Option ℕ

-- Only the three functions below make one outside the package.
abbrev pub TerminalOption : Type 0
TerminalOption = TerminalOptions → TerminalOptions

-- `WithTerminalRows`
unfoldable pub with_terminal_rows : ℕ → TerminalOption
with_terminal_rows rows cfg = record cfg { rows = rows }

-- `WithTerminalMaxScrollbackBytes`
unfoldable pub with_terminal_max_scrollback_bytes : ℕ → TerminalOption
with_terminal_max_scrollback_bytes max_scrollback_bytes cfg = record cfg {
  max_scrollback_bytes = max_scrollback_bytes;
}

-- `WithTerminalBlinkIntervalMs`
unfoldable pub with_terminal_blink_interval_ms : Option ℕ → TerminalOption
with_terminal_blink_interval_ms blink_interval_ms cfg = record cfg {
  blink_interval_ms = blink_interval_ms;
}

unfoldable pub defaults : TerminalOptions
defaults = record { rows = 24; max_scrollback_bytes = 1048576; blink_interval_ms = some 500 }

-- `for _, opt := range opts`
unfoldable pub configured : TerminalOptions → List TerminalOption → TerminalOptions
configured cfg [] = cfg
configured cfg (opt ∷ opts) = configured (opt cfg) opts

-- `NewTerminal`; the native side is a function of what it is handed.
unfoldable pub new_terminal :
    (ℤ → String)
    → (ℕ → ℕ → ℕ → Option ℕ → Raw Pointer)
    → Option String
    → ℕ
    → List TerminalOption
    → Result Terminal
new_terminal panic_message native site initial_cols opts =
    let cfg = configured defaults opts in
    let (result, code) =
      native initial_cols cfg.rows cfg.max_scrollback_bytes cfg.blink_interval_ms in
    if ==ℤ code (pos 0)
    then ok (Handles.new result site)
    else err (error_for_code panic_message "NewTerminal" code)

-- The options a caller can write
pub data Choice : Type 0 where
  rows : ℕ → Choice
  max_scrollback_bytes : ℕ → Choice
  blink_interval_ms : Option ℕ → Choice

abbrev pub option_of : Choice → TerminalOption
option_of (rows n) = with_terminal_rows n
option_of (max_scrollback_bytes n) = with_terminal_max_scrollback_bytes n
option_of (blink_interval_ms n) = with_terminal_blink_interval_ms n

-- The value that the last choice of a setting gives it, or else `standard`
abbrev pub last_choice : {A : Type 0} → (Choice → Option A) → A → List Choice → A
last_choice pick standard [] = standard
last_choice pick standard (c ∷ rest) =
    last_choice pick (elim (pick c) [ none ↦ standard | some a ↦ a ]) rest

abbrev pub rows_of : Choice → Option ℕ
rows_of (rows n) = some n
rows_of _ = none

abbrev pub max_scrollback_bytes_of : Choice → Option ℕ
max_scrollback_bytes_of (max_scrollback_bytes n) = some n
max_scrollback_bytes_of _ = none

abbrev pub blink_interval_ms_of : Choice → Option (Option ℕ)
blink_interval_ms_of (blink_interval_ms n) = some n
blink_interval_ms_of _ = none

abbrev chosen : TerminalOptions → List Choice → TerminalOptions
chosen cfg choices = record {
  rows = last_choice rows_of cfg.rows choices;
  max_scrollback_bytes = last_choice max_scrollback_bytes_of cfg.max_scrollback_bytes choices;
  blink_interval_ms = last_choice blink_interval_ms_of cfg.blink_interval_ms choices;
}

configured-chosen :
    (cfg : TerminalOptions) (choices : List Choice)
    → configured cfg (map option_of choices) ≡ chosen cfg choices
unfolding configured with_terminal_rows with_terminal_max_scrollback_bytes
    with_terminal_blink_interval_ms
configured-chosen cfg [] = refl
configured-chosen cfg (rows n ∷ rest) = configured-chosen _ rest
configured-chosen cfg (max_scrollback_bytes n ∷ rest) = configured-chosen _ rest
configured-chosen cfg (blink_interval_ms n ∷ rest) = configured-chosen _ rest

-- `NewTerminal` hands the native side, for each of its three settings on its own, the value of the last
-- option that sets it, or its default (24 rows, 1048576 bytes, 500 ms) where no option does; a blink
-- interval that is set to nil is handed on as nil.
pub new_terminal_lem :
    (message : ℤ → String) (native : ℕ → ℕ → ℕ → Option ℕ → Raw Pointer) (site : Option String)
    (cols : ℕ) (choices : List Choice)
    → new_terminal message native site cols (map option_of choices) ≡ (
        let (result, code) =
          native cols
            (last_choice rows_of 24 choices)
            (last_choice max_scrollback_bytes_of 1048576 choices)
            (last_choice blink_interval_ms_of (some 500) choices) in
        if ==ℤ code (pos 0)
        then ok (Handles.new result site)
        else err (error_for_code message "NewTerminal" code))
unfolding new_terminal defaults
new_terminal_lem message native site cols choices = rw (configured-chosen defaults choices) refl
