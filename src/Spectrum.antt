-- ===== src/Spectrum.antt =====
-- services/spectrum_inquiry_service.py: the channels that a CBSD may use.
-- `Ranges` has the arithmetic of frequency ranges, `Split` the 10 MHz grid, `Request` what a request
-- holds, `Available` the channels of one inquiry, `Inquiry` the batch.
mod Ranges
mod Split
mod Request
mod Available
unfoldable pub use Ranges.*
unfoldable pub use Split.*
unfoldable pub use Request.*
unfoldable pub use Available.*
pub mod SubtractExact
pub mod Tiles
pub mod Coverage
pub mod PalLoop
pub mod Offered
pub mod Inquiry
