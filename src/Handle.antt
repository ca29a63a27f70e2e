-- ===== src/Handle.antt =====
-- The handle types of a generated package
-- (examples/07-event-queue/go/event_queue/event_queue_handles_gen.go).
-- A method runs under the handle's mutex from `Lock` to `Unlock`, so one critical section is one
-- function on the record; what a method does after `Unlock` is returned as a list of effects.
pub mod Common
pub mod Parent
pub mod EventQueue
pub mod Terminal
pub mod BorrowBox
pub mod BorrowChild
pub mod BorrowView
pub mod Lifecycle
pub mod Scratch
pub mod Stream
