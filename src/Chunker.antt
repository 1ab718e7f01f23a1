-- ===== src/Chunker.antt =====
-- The token chunker: internal/infra/pipeline/chunker/chunker.go and tokenizer.go.
pub mod Split
pub mod Cores
pub mod Windows
pub mod Pieces
