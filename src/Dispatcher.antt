-- ===== src/Dispatcher.antt =====
-- Triggers that enqueue processing tasks: internal/app/dispatcher.go and internal/domain/triggers.
pub mod Triggers
pub mod Cached
pub mod Fired
