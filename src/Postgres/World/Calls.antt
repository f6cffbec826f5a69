-- ===== src/Postgres/World/Calls.antt =====
-- Each call on the source or the target keeps the invariant, and what it gives to the next one.
mod Facts
pub mod Lifecycle
pub mod Staging
pub mod Consume
pub use Facts.*
