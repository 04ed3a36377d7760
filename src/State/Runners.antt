-- ===== src/State/Runners.antt =====
-- Who stands on which base: the names of `State.runners` under the operations on runners.
pub mod Names
pub mod Simultaneous
pub mod Conservation
pub mod Rest
pub mod Retreat
pub use Names.*
pub use Simultaneous.*
pub use Conservation.*
pub use Rest.*
pub use Retreat.*
