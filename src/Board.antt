-- ===== src/Board.antt =====
-- The discussion board, internal/board.
pub mod State
pub mod Reads
pub mod Writes
pub mod Readable
pub mod Listing
pub mod Ownership
pub mod Invariant
