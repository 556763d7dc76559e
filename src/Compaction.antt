-- ===== src/Compaction.antt =====
-- packages/ftre-compaction.
mod Anchor
mod View
mod Tests
