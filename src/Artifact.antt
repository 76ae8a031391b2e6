-- ===== src/Artifact.antt =====
-- The package artifact: versioned blobs, found by path in a tree and by hash in stores.
pub mod Error
pub mod Hash
pub mod Tree
pub mod Stores
pub mod Exec
pub mod Config
pub mod Cache
pub mod Walk
mod Tests
