-- ===== src/Cache.antt =====
-- src/cache.rs: the shared HTTP cache.
pub mod Names
pub mod Directives
pub mod Policy
pub mod Vary
pub mod Stale
pub mod Storable
pub mod Response
pub mod Store
