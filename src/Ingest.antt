-- ===== src/Ingest.antt =====
-- The intake of Falco events: internal/scoreboard/ingest/ingest.go.
pub mod Events
pub mod Handler
pub mod Admission
pub mod Gates
pub mod Outcomes
pub mod Refusals
pub mod Stores
pub mod Taints
pub mod Unsolved
