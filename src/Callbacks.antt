-- ===== src/Callbacks.antt =====
-- The callback registry of a purego package
-- (examples/11-io-streams/go-purego/internal/raw/raw_gen.go, lines 84-245).
-- A callback value is a number that stands for it. The entries live in a store under their tokens,
-- since a dispatcher keeps its pointer to an entry whose token is gone; `registered` is the `sync.Map`.
-- Each function below is one critical section or one atomic operation; the methods that `Load` first and
-- lock then are here as they run with nobody between the two, but for those of `DeleteCallbackHandle`. The counters `int64` and
-- `active` are bit patterns (see Prelude.Words).
pub mod Streams
pub mod Registry
pub mod Deletion
use zigo.Prelude.{
  ℕ, ◌+◌, ◌%◌, ◌^◌, Bool, true, false, not, ◌||◌, Option, none, some, if◌then◌else◌, ◌==◌, word,
  inc, dec,
}
use zigo.Errors.{GoError, PanicValue}
use zigo.Handle.Common.{is_nil}

-- `callbackEntry`; `panic_value` is nil while `panicked` is false
pub record CallbackEntry : Type 0 where
  pub value : Option ℕ
  pub closing : Bool
  pub active : ℕ  -- int
  pub panicked : Bool
  pub panic_value : Option PanicValue
  pub go_err : Option GoError
  pub read_terminal : Option GoError

pub record Callbacks : Type 0 where
  pub entries : ℕ → CallbackEntry
  pub registered : ℕ → Bool
  pub next_token : ℕ  -- atomic.Uint64
  pub active_handles : ℕ  -- atomic.Int64
  pub pending : ℕ  -- atomic.Int64

abbrev pub update {ℓ} : {A : Type ℓ} → (ℕ → A) → ℕ → A → ℕ → A
update f i a j = if i == j then a else f j

abbrev pub new_entry : ℕ → CallbackEntry
new_entry value = record {
  value = some value;
  closing = false;
  active = 0;
  panicked = false;
  panic_value = none;
  go_err = none;
  read_terminal = none;
}

-- The token of `NewCallbackHandle`: the counter's next value, or the one after it if that is 0
unfoldable pub next_token : ℕ → ℕ
next_token n = let token = inc n in if token == 0 then inc token else token

-- `NewCallbackHandle`
unfoldable pub new_callback_handle : ℕ → Callbacks → Callbacks × ℕ
new_callback_handle value c =
    let token = next_token c.next_token in
    (
      record {
        entries = update c.entries token (new_entry value);
        registered = update c.registered token true;
        next_token = token;
        active_handles = inc c.active_handles;
        pending = c.pending;
      },
      token,
    )

-- `callbackRegistry.LoadAndDelete` of `DeleteCallbackHandle`: false if it returns there
unfoldable pub unregister : ℕ → Callbacks → Callbacks × Bool
unregister token c =
    if (token == 0) || not (c.registered token)
    then (c, false)
    else (record c { registered = update c.registered token false }, true)

-- What it does first under the lock of the entry
unfoldable pub close_entry : ℕ → Callbacks → Callbacks
close_entry token c = record c {
  entries = update c.entries token (record (c.entries token) { closing = true });
}

-- Its loop, and the rest under the lock: `none` as long as `cond.Wait` keeps it in the loop.
unfoldable pub finish_delete : ℕ → Callbacks → Option Callbacks
finish_delete token c =
    if (c.entries token).active == 0
    then some
        (record c { entries = update c.entries token (record (c.entries token) { value = none }) })
    else none

-- What it does after `Unlock`
unfoldable pub count_deleted : Callbacks → Callbacks
count_deleted c = record c { active_handles = dec c.active_handles }

-- `(*callbackEntry).record`
unfoldable pub record_panic : ℕ → PanicValue → Callbacks → Callbacks
record_panic token value c = if (c.entries token).panicked then c else record c {
  entries =
      update c.entries token
        (record (c.entries token) { panicked = true; panic_value = some value });
  pending = inc c.pending;
}

-- `(*callbackEntry).recordErr`
unfoldable pub record_err : ℕ → GoError → Callbacks → Callbacks
record_err token e c =
    if is_nil (c.entries token).go_err
    then record c {
      entries = update c.entries token (record (c.entries token) { go_err = some e });
    }
    else c

-- `TakeStreamError`
unfoldable pub take_stream_error : ℕ → Callbacks → Callbacks × Option GoError
take_stream_error token c = if not (c.registered token) then (c, none) else (
  record c { entries = update c.entries token (record (c.entries token) { go_err = none }) },
  (c.entries token).go_err,
)

-- `TakeCallbackPanic`, without the stack trace
unfoldable pub take_callback_panic : ℕ → Callbacks → Callbacks × Option (Option PanicValue)
take_callback_panic token c =
    if not (c.registered token) || not (c.entries token).panicked then (c, none) else (
      record c {
        entries =
            update c.entries token
              (record (c.entries token) { panicked = false; panic_value = none });
        pending = dec c.pending;
      },
      some (c.entries token).panic_value,
    )

-- What `acquireCallback` does under the lock of the entry that `callbackRegistry.Load` gave it
unfoldable pub enter_callback : ℕ → Callbacks → Callbacks × Option (Option ℕ)
enter_callback token c = if (c.entries token).closing then (c, none) else (
  record c {
    entries =
        update c.entries token (record (c.entries token) { active = inc (c.entries token).active });
  },
  some (c.entries token).value,
)

-- `acquireCallback` when no other goroutine comes between its `Load` and its lock: the callback value, or
-- `none` for a token that is gone. Callbacks.Deletion has its two steps apart.
unfoldable pub acquire_callback : ℕ → Callbacks → Callbacks × Option (Option ℕ)
unfolding enter_callback
acquire_callback token c = if not (c.registered token) then (c, none) else enter_callback token c

-- `releaseCallback`; the broadcast wakes the loop of `DeleteCallbackHandle`, which tests again
unfoldable pub release_callback : ℕ → Callbacks → Callbacks
release_callback token c = record c {
  entries =
      update c.entries token (record (c.entries token) { active = dec (c.entries token).active });
}
