-- ===== src/Play/Progress.antt =====
-- Termination of the parser of cw/parse.py: how far an action reads, and the fuel that it needs. The
-- modules below go through the parser function by function.
mod Rules
mod Quiet
mod Credits
mod Runners
mod Steals
mod Handlers
pub mod Total
