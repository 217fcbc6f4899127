-- ===== src/Tests.antt =====
-- Runs of the definitions and instances of the theorems, on small inputs.
mod Calendar
mod Rules
mod Evaluate
mod Gate
mod Calls
mod People
mod Stream
mod Retrieval
mod Redact
mod Guards
