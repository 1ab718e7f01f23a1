-- ===== src/Services/Scope.antt =====
-- The crawl's scope: which links become rows of the queue.
pub mod Hosts
pub mod Links
