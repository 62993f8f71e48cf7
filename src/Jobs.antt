-- ===== src/Jobs.antt =====
-- app/jobs: the queue, the scheduler and the worker, over the lists and the sorted set of Redis.
pub mod Store
pub mod Queue
pub mod Worker
pub mod Recover
pub mod Dispatch
pub mod Initial
pub mod Retry
pub mod Keeps
pub mod Backlog
pub mod Interleaved
pub mod Places
pub mod Kept
pub mod Conserved
pub mod Running
pub mod Stuck
pub mod Model
mod Tests
mod Examples
