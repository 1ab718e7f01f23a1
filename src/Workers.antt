-- ===== src/Workers.antt =====
-- Workers: what they may do and how much they may hold.
pub mod Policy
pub mod Headroom
