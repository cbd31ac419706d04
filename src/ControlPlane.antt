-- ===== src/ControlPlane.antt =====
-- The control plane (control_plane/): executions and their lifecycle, and policies.
pub mod StateMachine
pub mod Registry
pub mod Coordinator
pub mod Lifecycle
pub mod Policy
pub mod Tests
pub mod Adapters
pub mod System
