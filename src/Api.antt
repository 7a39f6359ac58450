-- ===== src/Api.antt =====
-- The participant actions of internal/scoreboard/api/api.go.
pub mod Gates
pub mod Leaderboard
pub mod Journeys
pub mod Detect
pub mod Progress
pub mod OwnSeat
pub mod Submissions
pub mod SolvedAnswer
pub mod Actions
pub mod HintLists
pub mod HintMap
pub mod HintOrder
