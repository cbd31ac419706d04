-- ===== src/ControlPlane/Policy.antt =====
-- The policy engine (control_plane/policy/, core/policies/).
pub mod Rules
pub mod Decisions
pub mod Cache
pub mod Engine
pub mod Fresh
pub mod Wildcard
