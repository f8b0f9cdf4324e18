-- ===== src/StreamBus.antt =====
-- The package streambus: frames with priorities, and the queues that hold them for a subscriber.
pub mod Ring
pub mod Queue
pub mod Subscription
pub mod Replay
pub mod Bus
pub mod Config
pub mod InMemory
pub mod Varint
pub mod Wire
