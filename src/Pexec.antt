-- ===== src/Pexec.antt =====
-- The package pexec: processes that are managed by id.
pub mod Manager
pub mod Managed
mod Tests
