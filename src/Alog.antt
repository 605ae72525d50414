-- ===== src/Alog.antt =====
-- alog/: the logger.
pub mod Logger
pub mod Batches
pub mod Delivery
pub mod Saved
pub mod Records
pub mod Stuck
