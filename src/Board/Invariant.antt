-- ===== src/Board/Invariant.antt =====
-- What holds of the tables of internal/board/board.go after any sequence of its methods.
pub mod Tables
pub mod Posted
pub mod Moderated
pub mod Reached
