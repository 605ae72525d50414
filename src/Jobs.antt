-- ===== src/Jobs.antt =====
-- jobs/: the queue that keeps its jobs in memory.
pub mod Memory
pub mod System
pub mod Conservation
pub mod Order
pub mod Postgres
