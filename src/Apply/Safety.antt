-- ===== src/Apply/Safety.antt =====
-- The drain keeps the target synced, whatever the source's transactions and the faults do.
mod Transactions
pub mod Drain
pub mod Table
pub mod Converge
pub use Transactions.*
