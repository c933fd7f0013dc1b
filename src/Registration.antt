-- ===== src/Registration.antt =====
-- services/registration_service.py: a CBSD registers, or registers again. `Params` merges and completes
-- the parameters, `Validate` checks their values, `Table` writes the rows, `Handler` is the procedure.
pub mod Params
pub mod Validate
pub mod Table
pub mod Keyed
pub mod Directory
pub mod Handler
pub mod Errors
pub mod Examined
pub mod InstallerKey
pub mod Signed
pub mod Limits
pub mod Lawful
pub mod Written
pub mod Entered
pub mod Invariant
pub mod Quiet
pub mod Ended
pub mod Departed
