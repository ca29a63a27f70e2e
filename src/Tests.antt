-- ===== src/Tests.antt =====
-- The results on concrete inputs, and runs of the definitions.
mod Handles
mod Decoder
mod Runtime
mod Unions
mod Audit
mod Borrowing
mod Documents
mod Methods
mod Registry
mod Text
mod Transient
mod Packed
mod Telemetry
mod Values
