-- ===== src/Scoring/Taint.antt =====
-- The rule of evade missions in internal/scoreboard/scoring/scoring.go: once a forbidden rule has
-- fired on a mission, only a reset makes it solvable again.
pub mod Frames
pub mod Calls
pub mod NeverSolved
pub mod Fires
