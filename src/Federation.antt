-- ===== src/Federation.antt =====
-- internal/federation: the mesh between the servers.
pub mod Hub
pub mod Mesh
pub mod Peer
