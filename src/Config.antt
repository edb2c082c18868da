-- ===== src/Config.antt =====
-- crates/rigos-config/src/lib.rs: profiles, flight sheets, imports and revisions.
pub mod Error
pub mod Names
pub mod Sheet
pub mod Profile
mod Examples
pub mod Store
pub mod Transaction
pub mod Fragment
pub mod Hive
pub mod Attestation
pub mod Identity
pub mod Proposal
pub mod Stored
pub mod Revision
