-- ===== src/Batch.antt =====
-- orchestrator/orchestrator/batch.py: one action over a list of hosts.
pub mod Hosts
pub mod Commands
pub mod Run
pub mod Unique
pub mod Budgets
pub mod Results
pub mod Phases
