-- ===== src/Health.antt =====
-- orchestrator/orchestrator/tart_health_agent.py: what is collected of each slot of a Tart host.
pub mod Parsers
pub mod Collect
pub mod Slots
pub mod Digits
pub mod Uptimes
pub mod Refusals
pub mod Reports
