-- ===== src/Auth.antt =====
-- Authorization (internal/auth).
pub mod Rbac
