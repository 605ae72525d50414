-- ===== src/Arepo.antt =====
-- arepo/: the generic repositories and what they are built from.
pub mod Errors
pub mod Query
pub mod Memory
pub mod Tenant
pub mod Builder
pub mod Aliasing
