-- ===== src/ChunkRepo.antt =====
-- The document chunks and their embedding queue: internal/domain/chunking/chunk.go and
-- internal/infra/db/gormrepo/chunk_repo.go.
pub mod Types
pub mod Rows
pub mod Leases
pub mod Reads
pub mod Calls
pub mod Atomic
pub mod Invariant
pub mod Preservation
pub mod Replaced
