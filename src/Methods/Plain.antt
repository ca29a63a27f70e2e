-- ===== src/Methods/Plain.antt =====
-- The generated methods and functions that run no callbacks
-- (examples/07-event-queue/go/event_queue/event_queue_gen.go, lines 774-1005 and 1060-1078): each
-- acquires a handle, makes one native call and lets the handle go.
-- The native side is a parameter, a function of the pointers and of the arguments that it is handed.
pub mod Restoring
pub mod Borrowing
use zigo.Prelude.{
  ℕ, ◌^◌, Bool, true, false, Option, none, some, List, [], ◌∷◌, ◌++◌, String, ◌<>◌, if◌then◌else◌,
}
use zigo.Prelude.Int.{ℤ, pos, ==ℤ}
use zigo.Errors.{GoError}
use zigo.Errors.Classify.{error_for_code, poison_after_panic}
use zigo.Handle.Common.{Pointer, Result, ok, err, Effect}
use zigo.Handle.BorrowBox as Box
use zigo.Handle.BorrowBox.{BorrowBox}
use zigo.Handle.BorrowChild as Child
use zigo.Handle.BorrowChild.{BorrowChild}
use zigo.Handle.BorrowView as View
use zigo.Handle.BorrowView.{BorrowView, Chain, Reservation}
use zigo.Handle.EventQueue.{EventQueue}
use zigo.Handle.Lifecycle.{Lifecycle}
use zigo.Handle.Lifecycle.Instances.{terminal, stream, borrow_child, chain}
use zigo.Handle.Stream.{Stream}
use zigo.Handle.Terminal as Terminals
use zigo.Handle.Terminal.{Terminal}
use zigo.Conversions.{TickerInfo, TickerInfoData, ticker_info_to_raw, ticker_info_from_raw}

-- What a native call returned: its result, and the `int32` code
abbrev pub Raw : Type 0 → Type 0
Raw A = A × ℤ

-- The result, once the deferred calls have run
abbrev pub leaving : {H B : Type 0} → Result B → H × List Effect → H × Result B × List Effect
leaving result (h, effects) = (h, result, effects)

module _ (panic_message : ℤ → String) where
  -- What follows the native call: the deferred release comes last, after the poisoning.
  unfoldable pub finished :
      {H A B : Type 0} → Lifecycle H → String → (A → B) → H → Raw A → H × Result B × List Effect
  finished l operation convert h (value, code) =
      let e = error_for_code panic_message operation code in
      if ==ℤ code (pos 0)
      then leaving (ok (convert value)) (l.release h)
      else leaving (err e) (l.release (poison_after_panic l.poison e h))

  -- A call that hands the pointer of one handle to the native side. `what` says in the error of a
  -- refusal which argument the handle is.
  unfoldable pub plain :
      {H A B : Type 0}
      → Lifecycle H
      → String
      → String
      → (Pointer → Raw A)
      → (A → B)
      → H
      → H × Result B × List Effect
  plain l operation what native convert h =
      let (h', acquired, effects) = l.acquire (operation <> what) h in
      elim acquired [
        | err e ↦ (h', err e, effects)
        | ok p ↦ finished l operation convert h' (native p)
      ]

  -- A call on a receiver that returns what the native side returned
  abbrev getter :
      {H A : Type 0} → Lifecycle H → String → (Pointer → Raw A) → H → H × Result A × List Effect
  getter l operation native = plain l operation " receiver" native (λ a. a)

  -- `Stream.Capacity`
  unfoldable pub stream_capacity :
      (Pointer → Raw ℕ) → Stream × EventQueue → (Stream × EventQueue) × Result ℕ × List Effect
  stream_capacity = getter stream "Stream.Capacity"

  -- `NewBorrowBox`
  unfoldable pub new_borrow_box : (ℤ → Raw Pointer) → Option String → ℤ → Result BorrowBox
  new_borrow_box native site value =
      let (result, code) = native value in
      if ==ℤ code (pos 0)
      then ok (Box.new result site)
      else err (error_for_code panic_message "NewBorrowBox" code)

  -- `BorrowBox.View` of `box b`, and `BorrowView.View` of a view: the owner of the view that they return
  -- is the receiver.
  unfoldable pub box_view :
      (Pointer → Raw Pointer) → Chain → Chain × Result BorrowView × List Effect
  box_view native = plain chain "BorrowBox.View" " receiver" native View.new

  unfoldable pub view_view :
      (Pointer → Raw Pointer) → Chain → Chain × Result BorrowView × List Effect
  view_view native = plain chain "BorrowView.View" " receiver" native View.new

  -- What follows the native call of `NewBorrowChild`; the reservation is dropped after the release.
  unfoldable pub child_made :
      Option String → Chain → Reservation → Raw Pointer → Chain × Result BorrowChild × List Effect
  child_made site c n (result, code) =
      let e = error_for_code panic_message "BorrowView.NewBorrowChild" code in
      if ==ℤ code (pos 0)
      then leaving (ok (Child.new result site)) (View.release c)
      else leaving (err e) (View.let_child_go n (poison_after_panic View.poison e c))

  -- `BorrowView.NewBorrowChild`; the child's parent is the reservation.
  unfoldable pub new_borrow_child :
      (Pointer → Raw Pointer) → Option String → Chain → Chain × Result BorrowChild × List Effect
  new_borrow_child native site c =
      let (c', acquired, effects) = View.acquire_child "BorrowView.NewBorrowChild receiver" c in
      elim acquired [ err e ↦ (c', err e, effects) | ok r ↦ child_made site c' r.1 (native r.0) ]

  -- `BorrowView.Get`
  unfoldable pub view_get : (Pointer → Raw ℤ) → Chain → Chain × Result ℤ × List Effect
  view_get = getter chain "BorrowView.Get"

  -- `BorrowView.Explode`
  unfoldable pub view_explode :
      (Pointer → Raw (Unit {0})) → Chain → Chain × Result (Unit {0}) × List Effect
  view_explode = getter chain "BorrowView.Explode"

  -- `BorrowChild.Get`, of a child with its box
  unfoldable pub child_get :
      (Pointer → Raw ℤ)
      → BorrowChild × BorrowBox
      → (BorrowChild × BorrowBox) × Result ℤ × List Effect
  child_get = getter borrow_child "BorrowChild.Get"

  -- `Terminal.BlinkIntervalMs`
  unfoldable pub terminal_blink_interval_ms :
      (Pointer → Raw ℕ) → Terminal → Terminal × Result ℕ × List Effect
  terminal_blink_interval_ms = getter terminal "Terminal.BlinkIntervalMs"

  -- `Terminal.Cols`
  unfoldable pub terminal_cols : (Pointer → Raw ℕ) → Terminal → Terminal × Result ℕ × List Effect
  terminal_cols = getter terminal "Terminal.Cols"

  -- `Terminal.Rows`
  unfoldable pub terminal_rows : (Pointer → Raw ℕ) → Terminal → Terminal × Result ℕ × List Effect
  terminal_rows = getter terminal "Terminal.Rows"

  -- `Terminal.MaxScrollbackBytes`
  unfoldable pub terminal_max_scrollback_bytes :
      (Pointer → Raw ℕ) → Terminal → Terminal × Result ℕ × List Effect
  terminal_max_scrollback_bytes = getter terminal "Terminal.MaxScrollbackBytes"

  -- `InspectTicker`; the ticker is a handle of another generated package.
  unfoldable pub inspect_ticker :
      {H : Type 0}
      → Lifecycle H
      → (TickerInfoData → Pointer → Raw TickerInfoData)
      → TickerInfo
      → H
      → H × Result TickerInfo × List Effect
  inspect_ticker l native info =
      plain l "InspectTicker" " parameter ticker" (native (ticker_info_to_raw info))
        ticker_info_from_raw
