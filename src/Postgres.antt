-- ===== src/Postgres.antt =====
-- internal/engine/postgres: capture and consumption on the source, apply on the target.
pub mod Capture
pub mod World
pub mod Purge
