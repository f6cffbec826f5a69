-- ===== src/Engine.antt =====
-- internal/engine: the vocabulary that every engine shares.
mod Types
pub mod Keys
unfoldable pub use Types.*
