-- ===== src/Examples.antt =====
-- Runs of the model at concrete inputs.
pub mod Fixtures
mod Crawl
mod Tasks
mod Chunks
mod Tokens
mod Routing
mod Encoding
mod Services
mod Requests
