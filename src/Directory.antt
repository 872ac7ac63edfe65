-- ===== src/Directory.antt =====
-- mcdir: the directory server.
pub mod Types
pub mod Peers
pub mod Manifests
pub mod Handler
pub mod Serve
