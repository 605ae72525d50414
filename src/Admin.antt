-- ===== src/Admin.antt =====
-- contexts/admin/: how an administrator prunes the history of jobs and schedules new ones.
pub mod Atoi
pub mod History
pub mod Newest
pub mod Pruned
pub mod Truncate
