-- ===== src/Hostnames.antt =====
-- orchestrator/orchestrator/hostnames.py and role_map.py: which names are workers of the fleet, and
-- the puppet role of a worker. A `ValueError` is `none`. The methods of `str` are Prelude/Text; `\d`
-- is the table of decimal digits below, since Python matches a `str` pattern against Unicode.
mod Defs
mod Shape
mod Fqdn
pub mod Roles
unfoldable pub use Defs.*
pub use Shape.*
pub use Fqdn.*
