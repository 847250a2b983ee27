-- ===== src/State.antt =====
-- crates/identity-hub-http/src/state.rs: the bounded tables of the shared state.
pub mod Evict
pub mod SeenJti
pub mod Requests
