-- ===== src/Api.antt =====
-- The interface of the system to its clients (api/).
pub mod Auth
pub mod Audit
pub mod Quotas
