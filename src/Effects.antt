-- ===== src/Effects.antt =====
-- What the orchestrator's steps do to the world outside, and how they fail.
-- A step is an action of `Exec`: it reads the world, which is a parameter, and appends to a history
-- every call that it makes together with the answer. The world's answers are functions of the history
-- before the call, so any deterministic or adversarial environment is one of them.
mod Calls
mod Actions
mod Poll
pub mod Keeps
pub mod Ends
pub mod Gives
pub use Calls.*
unfoldable pub use Actions.*
unfoldable pub use Poll.*
