-- ===== src/Http.antt =====
-- The HTTP layer: internal/infra/http.
pub mod Hex
pub mod Replies
pub mod Auth
pub mod Jobs
pub mod Tasks
pub mod Embed
pub mod Reads
pub mod Admitted
