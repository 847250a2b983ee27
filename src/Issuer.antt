-- ===== src/Issuer.antt =====
-- crates/identity-hub-http/src/issuer.rs: the governance state of the Issuer Service.
pub mod Error
pub mod Process
pub mod StatusList
pub mod Definitions
pub mod Holders
pub mod Issued
pub mod Query
