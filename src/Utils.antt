-- ===== src/Utils.antt =====
-- The package utils: small types that the other packages share.
pub mod Ref
pub mod StringSet
pub mod Errors
pub mod Workers
mod Tests
