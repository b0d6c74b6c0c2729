-- ===== src/Scheduler/Invariant.antt =====
-- What holds of the scheduler between two `await`s, and that each operation keeps it.
pub mod Found
pub mod Grant
pub mod Rounds
pub mod Queue
pub mod Ops
pub mod Leave
pub mod Steps
