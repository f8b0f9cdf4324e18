-- ===== src/Tests.antt =====
-- Runs of the modelled operations on small inputs, by the parts of the program.
mod Merge
mod Cache
mod Adapter
mod World
mod Core
mod Lifecycle
mod Txn
mod Wire
mod SyncBus
mod Caches
mod Validator
mod Warmup
mod Lock
mod Mesh
mod Subscription
mod Bus
mod SlidingWindow
mod StreamBus
