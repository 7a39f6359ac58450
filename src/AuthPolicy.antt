-- ===== src/AuthPolicy.antt =====
-- The identity gate of internal/authpolicy: who is which seat, and which route lets whom through.
pub mod Email
pub mod Roster
pub mod Rows
pub mod Server
pub mod Parts
pub mod Folding
pub mod Normal
pub mod Canonical
pub mod Disjoint
pub mod Decisions
