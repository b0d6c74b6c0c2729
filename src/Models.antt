-- ===== src/Models.antt =====
-- src/fetech/models.py: the contracts that the planner, the executor and the adapters share.
pub mod Status
pub mod Request
pub mod Plan
pub mod Record
