-- ===== src/Workflow.antt =====
-- orchestrator/orchestrator/workflow.py: the steps of the EACS workflow and the two runs that put them
-- in order. What a step prints is not modelled; an assignment to the context is in the context that
-- the step returns.
pub mod Context
pub mod Hold
pub mod Token
pub mod Erase
pub mod Gates
pub mod Capture
pub mod Runs
pub mod Keeps
pub mod Evidence
pub mod Wiping
pub mod Safety
pub mod Ends
pub mod Total
pub mod Group
pub mod Apps
pub mod Peers
pub mod Parity
pub mod Members
pub mod Attaching
pub mod Gaps
pub mod Orphans
pub mod Draining
pub mod Holding
pub mod Versions
pub mod Minting
