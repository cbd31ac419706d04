-- ===== src/Marketplace.antt =====
-- The marketplace of extensions (control_plane/governance/marketplace/).
pub mod Manifest
pub mod Registry
pub mod Reviews
pub mod Artifacts
pub mod Checks
pub mod Tests
