-- ===== src/Executor.antt =====
-- src/fetech/executor.py and src/fetech/adapters/base.py: the run of a plan.
pub mod Context
pub mod Quality
pub mod Budget
pub mod Failure
pub mod Retry
pub mod Ledger
pub mod Attempts
pub mod Node
pub mod Batch
pub mod Run
pub mod Examples
