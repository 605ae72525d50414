-- ===== src/Arepo/Tenant.antt =====
-- arepo/inmemory-tenant.repository.go: `MemoryTenantRepository`, which keeps the entities of each
-- tenant apart. `State` and `Methods` model it, the other children prove what its methods do.
pub mod State
pub mod Methods
pub mod Commands
pub mod Refinement
pub mod Isolation
pub mod Drawn
pub mod NextId
