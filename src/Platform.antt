-- ===== src/Platform.antt =====
-- The services of the platform, packages/platform-core/src: the limiter of requests and the pool of waiting
-- players; and the seats of a table, from packages/platform-contract/src.
pub mod Limiter
pub mod Buckets
pub mod Credit
pub mod Windows
pub mod Pool
pub mod Queues
pub mod Sweeping
pub mod Tests
pub mod Seats
