-- ===== src/Repos.antt =====
-- The other repositories: lake objects, documents, collections, capabilities, triggers and workers.
pub mod Lake
pub mod Extraction
pub mod CollectionConfig
pub mod Capabilities
pub mod Triggers
pub mod Workers
