-- ===== src/Iap.antt =====
-- services/iap: the iterative allocation of interference to the grants near a protected point (IAP).
-- `Points` has the channels and the grants of a point, `Rounds` the loop of the engine, `Decisions` what it
-- decides, `Merge` the merge over the points.
pub mod Points
pub mod Rounds
pub mod Tallied
pub mod Ends
pub mod Terminates
pub mod Decisions
pub mod Merge
pub mod Severity
pub mod Kept
pub mod Held
pub mod Powers
