-- ===== src/Services.antt =====
-- The services of internal/app over the repositories.
pub mod Collections
pub mod Pipeline
pub mod Drain
pub mod Firing
pub mod Storage
pub mod Tasks
pub mod Crawl
pub mod Embed
pub mod Rechunk
pub mod Again
pub mod Scope
pub mod Mover
pub mod Fts
