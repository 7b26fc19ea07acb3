-- ===== src/Jobs.antt =====
-- src/jobs: the runs of the worker pool.
pub mod Spec
pub mod Queue
pub mod Worker
pub mod Gather
pub mod Hint
pub mod Scheduler
pub mod Tests
