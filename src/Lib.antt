-- ===== src/Lib.antt =====
-- go-warp is a cache orchestrator: core/core.go answers reads and writes of registered keys from a
-- cache, falls back to a store, merges conflicting values, and tells other nodes of changes over a
-- sync bus. This library models the parts below and states what they guarantee.
--
-- Parts:
--   * Merge: merge/merge.go (Clock: VectorClock; Engine: Value, LastWriteWins, Engine) and
--     merge/versioned.go (Versioned).
--   * Cache: cache/ttl.go (Ttl), the Cache interface of cache/cache.go (Api), its InMemoryCache
--     (InMemory, with a tick of the sweeper in InMemory.Sweep), cache/resilient.go (Resilient),
--     cache/adaptive/sliding_window.go (SlidingWindow) and cache/versioned/versioned.go (Versioned).
--   * Adapter: InMemoryStore and its batches of adapter/adapter.go.
--   * Core: core/core.go. Registry has the registrations and their shards, State the Warp object
--     and the steps that the handlers share, Register the registration of keys, Get, GetOrSet and
--     Set the handlers of these names, with Invalidate in Set, and Background the goroutines that
--     they start. Txn has the transactions, with Commit in Txn.Commit: its store may be a Batcher,
--     and the order of a map is that of its association list. Create has New and its options.
--     Ports has what core calls and does not define, and Instance fills it with the models of the
--     cache and of the store. Warmup has Warmup and GetAt, Validation the cache that a validator
--     sees, and Lease the lease manager of core/lease.go.
--   * Mesh: the packets of syncbus/mesh/packet.go, over Go's slices of bytes (Buffer).
--   * StreamBus: the package streambus. Ring and Queue have the queues of queue.go, Subscription the
--     subscriptions of subscription.go with their overflow policies, and Subscription.Run their
--     goroutine among the publishers, as a relation of steps. Replay, Bus and InMemory have
--     inmemory.go, and Config its errors and settings: the journal of a topic, the routes with
--     their tree of prefixes, and Publish, Subscribe and Close. Wire has the messages of wire.go,
--     with DecodeMessage in Wire.Decode and the framing in Wire.Stream, over the varints of Varint.
--   * SyncBus: syncbus/syncbus.go. SafeMap is the sharded map that it takes from another package,
--     Channels Go's channels of capacity one, and InMemory the bus.
--   * Validator: validator/validator.go.
--   * Lock: the lock table of lock/memory.go, with the events that it takes from the bus.
--   * Errors: the error values, and results that may fail.
--   * Base: lists, maps as association lists, int64 arithmetic, times, keys.
--   * Tests: runs on small inputs.
--
-- A handler is a function from the Warp object to a result and the object afterwards. A call is
-- one step: locks and atomics are left out, and what another goroutine decides is an argument:
-- the readings of the clock, whether singleflight joins another call and what that call gave,
-- whether the soft timeout passes first (Core.Get.Env). A goroutine that a handler starts is an
-- entry of `spawned`, and running it is a step of Core.Background. A pointer to a registration is
-- its key. A context appears as the error that it has at each check. A result that fails carries no
-- value: what Go returns beside an error, such as the stale value beside ErrNotFound in Get, is left
-- out. Counters of events are natural numbers; those of the in-memory cache wrap as uint64 does.
--
-- Times are integers, in nanoseconds; the zero time is 0. Durations and sizes are int64 with their
-- wrap-around written out, vector clocks uint64, the hash of a key uint32. float64 and the TTL
-- strategies are parameters with the operations that the program uses. A map is an association
-- list, where a statement asks for distinct keys if it depends on them. The one loop that is not
-- structural in core and cache, the eviction for memory in InMemoryCache.Set, has the length of the
-- recency list as its fuel: each round removes one element, and an empty list ends the loop. The
-- clearing of a queue in StreamBus.Queue has the length of that queue. The loop of enqueue that
-- waits for space is one round for each token, a step of Subscription.Run. A tick of the sweeper has
-- a pass for each item and one more: a pass that is repeated removes five items at least. writeAll
-- has a round for each byte, and a varint of a uint64 ten bytes.
--
-- Not modelled: logs, traces and exported metrics beyond their counters, the adaptive cache, the
-- waiting loop of Acquire in lock/memory.go, the rest of the mesh bus, the watch buses, the circuit
-- breaker around a bus, which forwards to another package, and the adapters of Redis, NATS, Kafka,
-- Ristretto, GORM and WebTransport, which are I/O over third-party clients.
pub mod Adapter
pub mod Base
pub mod Cache
pub mod Core
pub mod Errors
pub mod Lock
pub mod Merge
pub mod Mesh
pub mod StreamBus
pub mod SyncBus
pub mod Tests
pub mod Validator
