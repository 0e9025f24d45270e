-- ===== src/Clients.antt =====
-- orchestrator/orchestrator/clients: Taskcluster, SimpleMDM and ssh, over the calls of Effects.
pub mod Taskcluster
pub mod SimpleMdm
pub mod Ssh
pub mod Keeps
pub mod Ends
