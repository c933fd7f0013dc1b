-- ===== src/Grants.antt =====
-- services/grant_service.py: `process_grant`. `Channel` decides the channel of the requested range,
-- `Proposal` checks the request, `Admission` stores the grant.
mod Proposal
mod Admission
unfoldable pub use Proposal.*
unfoldable pub use Admission.*
pub mod Channel
pub mod Sound
pub mod Bounds
pub mod Disjoint
