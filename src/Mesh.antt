-- ===== src/Mesh.antt =====
-- The package syncbus/mesh: the packets of the mesh bus.
pub mod Buffer
pub mod Packet
