-- ===== src/Heartbeat.antt =====
-- services/heartbeat_service.py: whether a CBSD may transmit on a grant. `Reply` has the request and the
-- answers, `Authorize` what a heartbeat that passes does, `Guards` the guards, `Handler` the batch, and
-- `Window` the time of a transmission.
mod Reply
mod Authorize
mod Guards
mod Handler
unfoldable pub use Reply.*
unfoldable pub use Authorize.*
unfoldable pub use Guards.*
unfoldable pub use Handler.*
pub mod Window
pub mod Refusals
pub mod Success
pub mod Frame
pub mod Live
pub mod Authorized
pub mod Transmit
