-- ===== src/Node.antt =====
-- internal/node: the protocols that a node speaks with its peers.
pub mod Blocks
pub mod Join
pub mod Members
