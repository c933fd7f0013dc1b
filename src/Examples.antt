-- ===== src/Examples.antt =====
-- Runs of the procedures on concrete rows: `Data` has the rows, the other modules apply the theorems to them.
pub mod Data
mod Devices
mod Registrations
mod Protections
mod Allocations
mod Limits
mod Grants
mod Spectrum
mod Procedures
