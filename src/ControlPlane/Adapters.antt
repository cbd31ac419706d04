-- ===== src/ControlPlane/Adapters.antt =====
-- The control plane's implementations of what the kernel calls (control_plane/adapters/to_kernel/).
pub mod Router
pub mod Routes
pub mod Policies
pub mod Checkpoints
pub mod Executor
