-- ===== src/Preflight.antt =====
-- The checks before a sync starts: internal/engine/preflight.go, internal/engine/preflight_mesh.go,
-- and internal/engine/postgres/typecompat.go, cyclicfk.go and preflight.go.
pub mod TypeNames
pub mod Compat
pub mod Cyclic
pub mod Tables
pub mod Findings
pub mod Report
pub mod MeshIds
