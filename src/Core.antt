-- ===== src/Core.antt =====
-- What the other parts share (core/).
pub mod Capabilities
pub mod Domain
pub mod Tests
