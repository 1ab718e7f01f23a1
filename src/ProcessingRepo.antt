-- ===== src/ProcessingRepo.antt =====
-- The processing tasks: internal/domain/processing and
-- internal/infra/db/gormrepo/processing_repo.go.
pub mod Types
pub mod Queue
pub mod Leases
pub mod Calls
pub mod Atomic
pub mod Invariant
pub mod Preservation
pub mod Claimed
pub mod Offered
pub mod Failing
