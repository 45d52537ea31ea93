-- ===== src/Network.antt =====
-- The package network.
pub mod TxPool
pub mod Rpc
pub mod Node
pub mod Server
pub mod Events
