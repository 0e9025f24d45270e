-- ===== src/Runner.antt =====
-- orchestrator/orchestrator/runner.py, which pulls jobs from Hangar and runs the command line for them.
pub mod Calls
pub mod Jobs
pub mod Api
pub mod Execute
pub mod Keeps
pub mod Outcomes
pub mod Completion
pub mod Safety
pub mod Attempts
pub mod Serve
pub mod Serving
pub mod Drains
pub mod Setup
pub mod Reloads
pub mod Finishes
