-- ===== src/Arepo/Memory.antt =====
-- arepo/inmemory.repository.go: `MemoryRepository`. The methods stand in `State` (what they share),
-- `Reads`, `Writes` (one entity), `Batch` (many) and `NextId`; the other children prove what the
-- methods do.
pub mod State
pub mod Reads
pub mod Writes
pub mod Batch
pub mod Valid
pub mod FilterLaws
pub mod Filter
pub mod NextId
pub mod Lookups
pub mod Refinement
pub mod Preserve
pub mod Invariant
pub mod Many
pub mod Single
