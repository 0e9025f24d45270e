-- ===== src/Broker.antt =====
-- broker/app, the vault broker: it serves a role's secrets to a host whose certificate names the role.
pub mod Limiter
pub mod Identity
pub mod Identities
pub mod Serve
pub mod Served
pub mod Shares
