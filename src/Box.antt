-- ===== src/Box.antt =====
-- cw/box.py: the box score that is built along a walk over the plays of a game.
pub mod Record
pub mod Find
pub mod Pitches
pub mod Batter
pub mod Runner
pub mod Fielder
pub mod Substitute
pub mod Starters
pub mod Iterate
pub mod Balance
pub mod Ends
pub mod Walked
pub mod Line
pub mod Lineup
mod Tests
