-- ===== src/Box/Lineup.antt =====
-- Who stands in the slots of a box score and who pitches (cw/box.py: `add_substitute`).
pub mod Slots
pub mod Mound
pub mod Whole
