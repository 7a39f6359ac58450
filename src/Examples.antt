-- ===== src/Examples.antt =====
-- The theorems at concrete inputs: a catalog with one evade mission, a board with two threads.
mod Stores
mod Grades
mod Boards
mod Identities
mod Limits
mod Intake
mod Actions
mod Flags
mod Starts
mod Origins
mod Pages
mod Detects
