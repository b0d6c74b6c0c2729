-- ===== src/Planner.antt =====
-- src/fetech/planning.py and the lookups of src/fetech/registry.py: from a request to a plan.
pub mod Result
pub mod Registry
pub mod Lookup
pub mod Tables
pub mod Classify
pub mod Nodes
pub mod Stages
pub mod Plan
pub mod Permits
pub mod Topology
pub mod Serves
pub mod Examples
