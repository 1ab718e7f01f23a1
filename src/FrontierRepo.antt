-- ===== src/FrontierRepo.antt =====
-- The crawl queue: internal/domain/frontier and internal/infra/db/gormrepo/frontier_repo.go.
pub mod Types
pub mod Queue
pub mod Pick
pub mod Reserve
pub mod Domains
pub mod Calls
pub mod Atomic
pub mod Invariant
pub mod Preservation
pub mod Taken
pub mod Picked
pub mod Wanted
pub mod Reserved
pub mod Held
pub mod Since
pub mod Spaced
pub mod Politeness
pub mod Leases
pub mod Failing
pub mod Revoked
pub mod Operator
pub mod Requeued
pub mod Lifecycle
pub mod Moved
pub mod Refines
pub mod Refined
pub mod Refinement
