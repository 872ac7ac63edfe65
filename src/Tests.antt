-- ===== src/Tests.antt =====
-- Runs of the model on small inputs: of the query language here, of the services in the children.
pub mod Samples
pub mod Languages
pub mod Servers
pub mod Nodes
pub mod Exchanges
pub mod Networks
pub mod Merges
