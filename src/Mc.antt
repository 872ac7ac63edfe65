-- ===== src/Mc.antt =====
-- The package mc: what the daemons share.
pub mod Message
pub mod Handle
pub mod Subnet
pub mod Nat
