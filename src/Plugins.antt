-- ===== src/Plugins.antt =====
-- Plugins: core/domain/plugin.py and agents/loader/.
pub mod Manifest
pub mod Validator
pub mod Directories
pub mod Bridge
pub mod Tests
