-- ===== src/Jobs/Postgres.antt =====
-- jobs/postgres.go: the queue that keeps its jobs in Postgres, over the library gue.
pub mod Payload
pub mod Worker
pub mod Carried
pub mod Enqueued
pub mod History
pub mod Recorded
pub mod Lifecycle
pub mod Running
pub mod Starting
