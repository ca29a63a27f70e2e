-- ===== src/Lib.antt =====
-- The runtime that zigo puts into the Go packages it generates: handles with native objects behind
-- them, sessions, callbacks and streams, the loader of the native library, and the decoder of
-- materialized results.
--
-- The program. A package generated by zigo has a public layer (handle types, methods, errors), a
-- lifecycle package that the public layers of one module share, and a raw layer that calls native
-- code through cgo or purego. The text of these layers is the same in every package up to names;
-- the files below follow the packages that have all of it.
--
-- Files and the code that they model:
--   Prelude       shared names; numbers: a Go int or uint64 is its bit pattern below 2 ^ 64
--   Errors        examples/07-event-queue/go/internal/lifecycle/lifecycle_gen.go: the error types and
--                 errors.Is over them. Errors.Classify: zigoErrorForCode of
--                 examples/07-event-queue/go/event_queue/event_queue_errors_gen.go, and
--                 PoisonAfterPanic
--   Handle        examples/07-event-queue/go/event_queue/event_queue_handles_gen.go: EventQueue,
--                 Stream, BorrowBox, BorrowChild and Terminal, each a record with the functions new,
--                 acquire, release, poison, take_locked, close and cleanup for zigoNewX, zigoAcquire,
--                 zigoRelease, zigoPoison, zigoTakeLocked, Close and zigoCleanupX. Handle.BorrowView
--                 has these functions over a view with all its owners. Handle.Parent is what a
--                 dependent handle asks of its parent, Handle.Lifecycle what a method asks of a handle;
--                 Handle.Stream.Calls and Handle.Lifecycle.Instances fill them for the handle types.
--                 Handle.Scratch: zigoScratch, the buffer that a handle lends to its calls
--   Session       event_queue_sessions_gen.go of the same package
--   Methods       event_queue_gen.go: in Methods itself those that own callback handles and
--                 reservations, and call, the text that most methods share; Methods.Queries the
--                 methods of that text, Methods.Merging MergeFrom, Methods.Cloning Clone,
--                 Methods.Terminals NewTerminal and its options, Methods.Plain the methods and
--                 functions that run no callbacks
--   Transient     examples/04-callback/go/callback_gen.go: the functions that lend a callback to one native
--                 call, and their cancellation by a context. Transient.Trampolines callback_cgo_gen.go:
--                 what a callback leaves behind its handle. Transient.Contexts callback_handles_gen.go:
--                 CallbackContext; Transient.Running its methods, and Inspect; Transient.Buffers
--                 FloatBuffer and IntBuffer
--   Telemetry     examples/08-telemetry-hub/go/telemetry_hub/telemetry_hub_handles_gen.go: TelemetryHub.
--                 Telemetry.Calls the text its methods share and telemetry_hub_errors_gen.go;
--                 Telemetry.Controls and Telemetry.Readings the methods of telemetry_hub_gen.go, and
--                 Telemetry.Reducing the one that a context can cancel
--   Conversions   event_queue_structs_gen.go of the package event_queue: structs to and from C layouts
--   Documents     examples/11-io-streams/go/streams/streams_gen.go: the methods that satisfy io
--                 interfaces, or that lend a reader or a writer to native code. Documents.Counting
--                 WriteTo, Documents.Functions Banner, Tee and the plain methods, Documents.Codepoints
--                 the slices of code points, Documents.Codes the errors of streams_errors_gen.go
--   EnumText      event_queue_enums_gen.go and event_queue/types/types_enums_gen.go: the text of enums
--   Callbacks     examples/11-io-streams/go-purego/internal/raw/raw_gen.go: the callback registry, and
--                 in Callbacks.Streams readStream and the stream dispatchers
--   Registry      examples/07-event-queue/go/internal/lifecycle/lifecycle_gen.go: the registry of handle
--                 types, and the functions that dispatch on it; Registry.Instances the handle types
--                 that event_queue_runtime_gen.go registers, less the borrowed ones
--   Library       the loader of examples/11-io-streams/go-purego/internal/raw/raw_gen.go
--   Materialized  examples/12-materialized/go/materialized/materialized_structs_gen.go: the readers, the
--                 decoders of Leaf and Probe, and the entry points for whole buffers
--   TaggedUnion   examples/10-tagged-union/go/tagged_union/tagged_union_union_signal_gen.go. In the same
--                 package: TaggedUnion.Values tagged_union_union_value_gen.go, TaggedUnion.Handles
--                 tagged_union_handles_gen.go, TaggedUnion.Codes tagged_union_errors_gen.go, and
--                 TaggedUnion.Methods the methods of tagged_union_gen.go
--   PackedStructs tagged_union_structs_gen.go of that package: packed structs as integers, the union
--                 ScrollViewport that crosses by copy, and in PackedStructs.Encoding their JSON
--   SymbolAudit   tests/symbol_audit/main.go: the audit of one package's metadata
--   Tests         the results below on concrete inputs, and runs of the definitions
--
-- How they interact. A method acquires its handle, makes a native call, turns the status code into
-- an error (Errors.Classify), poisons the handle after a Zig panic, and releases it (Methods,
-- TaggedUnion, Telemetry). A stream pins its parent queue for a call and holds a reservation on it until its
-- cleanup. A borrowed reference acquires and releases its parent (TaggedUnion.Handles); the variant of
-- a Value is read in two calls, between which other goroutines may run. A session
-- closes streams before their queue. A panic or an error in a callback waits in the registry until
-- the method that made the native call takes it.
--
-- State and concurrency. A critical section is a function on the record, and what a method does
-- after Unlock is a list of effects. Handle.EventQueue.Concurrent runs critical sections and effects
-- in any order, Callbacks.Deletion does so for a callback entry, a lookup and the lock
-- after it being two steps, and Handle.Scratch for the atomic
-- operations on a lent buffer. Elsewhere a method runs alone.
--
-- Bounds. Fewer than 2 ^ 63 calls and children are open at a time, which no memory holds more of. A
-- buffer is shorter than 2 ^ 63 bytes, as every Go slice is. readStream's limit of 100 attempts is the
-- source's. A decimal number is printed in as many rounds as its value, which it never needs more of;
-- no other definition has fuel.
--
-- Not modelled: the code that moves data between Go and C memory in the raw layers, the free functions
-- that only hand on what the raw layer returns, what a failed native call leaves in a caller's buffer,
-- the text of messages, and the generator, which is written in Zig. Native calls, the dynamic loader, the
-- environment and the user's readers, writers and callbacks are parameters.
pub mod Prelude
pub mod Documents
pub mod EnumText
pub mod Errors
pub mod Handle
pub mod Session
pub mod Materialized
pub mod Callbacks
pub mod Library
pub mod Registry
pub mod SymbolAudit
pub mod Methods
pub mod Transient
pub mod TaggedUnion
pub mod PackedStructs
pub mod Telemetry
pub mod Tests
pub mod Conversions
