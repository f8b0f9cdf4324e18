-- ===== src/Core.antt =====
-- The package core: registrations and the orchestration of cache, store, bus and merge engine.
pub mod Ports
pub mod Registry
pub mod State
pub mod Set
pub mod Get
pub mod GetOrSet
pub mod Background
pub mod Create
pub mod Txn
pub mod Instance
pub mod Register
pub mod Warmup
pub mod Validation
pub mod Lease
