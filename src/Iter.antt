-- ===== src/Iter.antt =====
-- cw/gameiter.py: `GameIter`, which walks over the plays of a game.
pub mod Record
pub mod Step
pub mod Ahead
pub mod Copy
pub mod Rounds
pub mod Scores
pub mod Texts
pub mod Half
pub mod Runs
pub mod Comments
pub mod Settle
pub mod Loaded
mod Tests
pub mod Order
