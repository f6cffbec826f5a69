-- ===== src/Redis.antt =====
-- internal/engine/redis: the parts of the Redis engine that need no server. The mesh orders the
-- writes of a key by hybrid logical clocks, and its records travel in a binary framing.
pub mod Clock
pub mod Script
pub mod Register
pub mod Converge
pub mod Framing
