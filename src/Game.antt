-- ===== src/Game.antt =====
-- cw/game.py: the records of a game, the container's operations (Container, Replace) and the reader
-- (Tokens, Pending, Reader, Whole).
pub mod Records
pub mod Container
pub mod Tokens
pub mod Pending
pub mod Reader
pub mod Whole
pub mod Ends
pub mod Needed
pub mod Replace
pub mod Info
mod Tests
