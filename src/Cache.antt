-- ===== src/Cache.antt =====
-- The package cache: the cache interface, TTL options, and the cache implementations.
pub mod Api
pub mod Ttl
pub mod InMemory
pub mod Resilient
pub mod SlidingWindow
pub mod Versioned
