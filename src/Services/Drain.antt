-- ===== src/Services/Drain.antt =====
-- The in-process worker's loop: it ends, and leaves no task of its processors waiting.
pub mod Budget
pub mod Claim
pub mod Body
pub mod Holds
pub mod Marks
pub mod Quiet
pub mod Round
pub mod Ends
