-- ===== src/Traces.antt =====
-- The actions of the programs beside the steps (the runner, the broker, the health agent), for any
-- world, events and failures.
pub mod Actions
pub mod Logic
