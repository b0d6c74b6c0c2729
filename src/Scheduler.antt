-- ===== src/Scheduler.antt =====
-- src/fetech/scheduling.py: the shared network scheduler. The children hold its state, the pump,
-- the coroutines that use it, and the proofs.
pub mod Config
pub mod State
pub mod Eligible
pub mod Pump
pub mod Slots
pub mod Counts
pub mod Invariant
pub mod Capacity
pub mod Fairness
pub mod History
pub mod Examples
