-- ===== src/Node.antt =====
-- mcnode: the node.
pub mod Auth
pub mod Merge
pub mod Statements
pub mod Database
pub mod Status
pub mod Gc
pub mod Serve
pub mod MergeStream
pub mod Push
pub mod Network
pub mod Api
