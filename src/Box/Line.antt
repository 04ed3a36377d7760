-- ===== src/Box/Line.antt =====
-- The line score of a box score and the score board (cw/box.py, cw/gameiter.py).
pub mod Sums
pub mod Start
pub mod Whole
