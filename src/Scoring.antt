-- ===== src/Scoring.antt =====
-- internal/scoreboard/scoring: the grader.
pub mod Points
pub mod Grader
pub mod Submit
pub mod Sweep
pub mod Taint
pub mod Mission
pub mod Accept
pub mod Swept
