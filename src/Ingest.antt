-- ===== src/Ingest.antt =====
-- src/ingest: how an accepted batch is stored.
pub mod Aggregation
pub mod Cohorts
pub mod Replay
pub mod Timeline
pub mod Tests
