-- ===== src/Box/Balance.antt =====
-- What the entries of a box score (cw/box.py) add up to, function by function.
pub mod Totals
pub mod Present
pub mod Changes
pub mod Rules
pub mod Tally
pub mod Plays
pub mod Charges
pub mod Running
pub mod Fielding
pub mod Line
pub mod Entries
pub mod Relief
pub mod Subs
pub mod Starting
pub mod Whole
