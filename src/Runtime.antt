-- ===== src/Runtime.antt =====
-- packages/ftre-agent-runtime.
pub mod Completion
pub mod React
