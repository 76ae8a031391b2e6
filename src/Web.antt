-- ===== src/Web.antt =====
-- The package web: sessions of HTTP clients.
pub mod Sessions
mod Tests
