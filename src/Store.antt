-- ===== src/Store.antt =====
-- internal/store/store.go: the scoreboard's state. Every read comes from in-memory maps, and every
-- write that must outlive the process also goes to SQLite.
pub mod State
pub mod Solves
pub mod Reveals
pub mod Profiles
pub mod Rules
pub mod Lifecycle
pub mod Coherence
