-- ===== src/Lifecycle.antt =====
-- services/lifecycle.py: the CBSD and grant state machines.
-- `States` has the enumerations, `Tables` the transition tables, `Resolve` the state of a row,
-- `Transition` the evaluation and application of an event.
mod States
mod Tables
mod Resolve
mod Transition
pub mod Legal
pub mod Applied
pub mod Terminal
pub mod Flags
unfoldable pub use States.*
unfoldable pub use Tables.*
unfoldable pub use Resolve.*
unfoldable pub use Transition.*
