-- ===== src/Storage.antt =====
-- The stores (infrastructure/storage/) and what they keep (core/domain/).
pub mod Indexed
pub mod Checkpoints
pub mod Documents
pub mod Files
pub mod Repository
pub mod Memories
pub mod Tests
