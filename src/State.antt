-- ===== src/State.antt =====
-- cw/gameiter.py: the state of a game and the operations on it.
pub mod Record
pub mod Advance
pub mod Update
pub mod Queries
pub mod Runners
pub mod Balance
pub mod Batting
pub mod Scores
pub mod Lineups
mod Tests
