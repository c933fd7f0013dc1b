-- ===== src/Cpas.antt =====
-- services/cpas_service.py and services/mcp_protection.py: the daily coordination of the protections
-- (CPAS). `Decisions` merges what the protections decide, `Apply` writes it to the grants.
pub mod Decisions
pub mod Apply
pub mod Merged
pub mod Lowered
pub mod Found
pub mod Tamed
pub mod Applied
