-- ===== src/Domain.antt =====
-- src/bitheim/domain: states and snapshots of a node, each validated when it is made.
pub mod Node
pub mod Overview
pub mod Block
pub mod Mempool
pub mod Peer
