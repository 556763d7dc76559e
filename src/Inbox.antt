-- ===== src/Inbox.antt =====
-- The inbox package, packages/ftre-inbox/src/ftre_inbox.
pub mod Models
pub mod Repository
mod Tests
