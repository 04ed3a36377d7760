-- ===== src/Play.antt =====
-- cw/parse.py: the parser of play text.
pub mod Bases
pub mod Event
pub mod Cursor
pub mod Monad
pub mod Arrays
pub mod Credit
pub mod Location
pub mod Flags
pub mod Advance
pub mod Steals
pub mod Pickoffs
pub mod Handlers
pub mod Others
pub mod Sanity
pub mod Table
pub mod Parse
pub mod Progress
pub mod Settled
pub mod Case
pub mod Run
mod Tests
