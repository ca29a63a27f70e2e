-- ===== src/Tests/Runtime.antt =====
-- The callback registry, the loader, the methods and the error codes.
use zigo.Prelude.{
  ℕ, suc, ◌+◌, ◌≤◌, ◌≡◌, refl, false, Option, none, some, List, [], ◌∷◌, String, if◌then◌else◌,
  arith,
}
use zigo.Prelude.Int.{ℤ, pos}
use zigo.Errors.{GoError, panic_value}
use zigo.Handle.EventQueue as Queue
use zigo.Callbacks.{Callbacks, new_entry, new_callback_handle, next_token}
use zigo.Callbacks.Deletion.{Action, finds, enters, leaves, takes, locks, wakes, counts}
use zigo.Callbacks.Streams.{read_stream}
use zigo.Callbacks.Streams.Reading.{Sound, counted, read_stream-Sound, read_stream-count}
use zigo.Library.{System, found, Loaded, library_candidates, load_library}
use zigo.Library.Loading.{AllOrNothing, load_library-AllOrNothing}
use zigo.Methods.{Runtime, Native, is_success, set_observer, new_event_queue}
use zigo.Methods.Observers.{owned, set_observer-owned}
use zigo.Methods.Constructors.{Creates, new_event_queue-Creates}

abbrev empty : Callbacks
empty = record {
  entries = λ t. new_entry 0;
  registered = λ t. false;
  next_token = 0;
  active_handles = 0;
  pending = 0;
}

-- The registry after one callback was registered, as token 1
abbrev one_callback : Callbacks
one_callback = (new_callback_handle 42 empty).0

abbrev raced : List Action
raced = finds ∷ finds ∷ enters ∷ takes ∷ locks ∷ wakes ∷ enters ∷ leaves ∷ wakes ∷ counts ∷ []

-- A reader that counts its calls and never has a byte
abbrev idle_reader : ℕ → ℕ → ℕ × ℤ × Option GoError
idle_reader n len = (suc n, pos 0, none)

read_stream-Sound_example : Sound 8 (read_stream idle_reader 0 8 none)
read_stream-Sound_example = read_stream-Sound idle_reader 0 8

read_stream-count_example :
    ((read_stream (counted idle_reader) (0, 0) 8 none).0.1 ≤ 0 + 100)
    × ((e : GoError)
        → read_stream (counted idle_reader) (0, 0) 8 (some e) ≡ ((0, 0), 0, some e, some e))
read_stream-count_example = read_stream-count idle_reader 0 0 8

-- A platform with one library, which has every symbol
abbrev platform : System
platform = record {
  getenv = λ name. "";
  open_library = λ path. found 3;
  resolve_symbol = λ handle symbol. found 4096;
  default_library_name = "libstreams_zigo.so";
}

abbrev nothing_loaded : Loaded
nothing_loaded = record { bindings = none; successful_library_path = ""; handles = [] }

load_library-AllOrNothing_example :
    AllOrNothing platform
      (library_candidates platform "")
      nothing_loaded
      (load_library platform "" nothing_loaded)
load_library-AllOrNothing_example = load_library-AllOrNothing platform "" nothing_loaded refl

abbrev one_loaded : Loaded
one_loaded = record { bindings = some []; successful_library_path = "a.so"; handles = 3 ∷ [] }

message : ℤ → String
message code = "panic"

abbrev runtime : Runtime
runtime = record {
  queue = Queue.new (some 7) (11 ∷ 0 ∷ 12 ∷ []) none;
  active = 2;
  recorded = λ handle. none;
}

abbrev quiet : Native
quiet = record { pointer = some 21; code = pos 0; recorded = λ handle. none; pending = 0 }

abbrev observer_panicked : Native
observer_panicked = record {
  pointer = none;
  code = pos 7;
  recorded = λ handle. some (panic_value 9);
  pending = 1;
}

set_observer-owned_example :
    let (s', outcome) = set_observer message (some 13) observer_panicked runtime in
    (s'.active + owned runtime.queue.callback_handles
      ≡ runtime.active + owned s'.queue.callback_handles)
    × (s'.queue.active ≡ runtime.queue.active)
    × (s'.queue.callback_handles
        ≡ (if is_success outcome then 11 ∷ 0 ∷ 13 ∷ [] else runtime.queue.callback_handles))
unfolding Queue.new
set_observer-owned_example =
    set_observer-owned message 13 11 0 12 observer_panicked runtime (omega arith)
      (refl, refl, refl, omega arith, omega arith) refl (omega arith)

-- The observer panicked while the queue was made.
abbrev made_panicked : Native
made_panicked = record observer_panicked { pointer = some 21 }

new_event_queue-Creates_example :
    Creates message runtime 13 none made_panicked
      (new_event_queue message (some 13) made_panicked runtime)
new_event_queue-Creates_example =
    new_event_queue-Creates message 13 none made_panicked runtime (omega arith) (omega arith) refl

-- A reader that fills three bytes at a time
abbrev reader : ℕ → ℕ → ℕ × ℤ × Option GoError
reader n len = (suc n, pos 3, none)
