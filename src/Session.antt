-- ===== src/Session.antt =====
-- The session contracts of the agent package, packages/ftre-agent/src/ftre_agent/session.
pub mod Value
pub mod Log
pub mod Message
pub mod Derive
mod Tests
