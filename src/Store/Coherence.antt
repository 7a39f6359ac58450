-- ===== src/Store/Coherence.antt =====
-- Memory against SQLite: what internal/store/store.go keeps true of the two copies of its state.
pub mod Relation
pub mod SolveWrites
pub mod GateWrites
pub mod Writes
pub mod Histories
pub mod FailClosed
pub mod PrimaryKeys
pub mod Restart
