-- ===== src/Gate.antt =====
-- The confirmation gate of the mock writes: the tables it keeps (Gate/Store), its operations
-- (Gate/Confirm), and what they guarantee over every order of calls.
pub mod Store
pub mod Confirm
pub mod Checks
pub mod SingleUse
pub mod Provenance
pub mod Ticket
pub mod Minted
