-- ===== src/Cache/Store.antt =====
-- src/cache.rs, `Store`: each method takes the store and the time, and returns the store that it
-- leaves. A method reads the clock once.
pub mod Defs
pub mod Writes
pub mod Ledger
pub mod Preserve
pub mod Inserts
pub mod Freshens
pub mod Files
pub mod Reach
pub mod Variants
pub mod Laws
pub mod Shelf
pub mod Holds
pub mod Stocks
pub mod Restocks
pub mod Steps
pub mod Races
pub mod Refines
pub mod Guards
pub mod Refreshing
unfoldable pub use Defs.*
unfoldable pub use Writes.*
