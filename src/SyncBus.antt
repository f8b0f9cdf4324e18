-- ===== src/SyncBus.antt =====
-- The package syncbus: the bus that carries invalidations between nodes.
pub mod SafeMap
pub mod Channels
pub mod InMemory
