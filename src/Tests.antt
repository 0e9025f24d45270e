-- ===== src/Tests.antt =====
-- Runs at concrete inputs: a world with one idle M4 host, and instances of the theorems.
mod Lab
mod Names
mod Steps
mod Batches
mod Jobs
mod Vault
mod Fleet
mod Tart
