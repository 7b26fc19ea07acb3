-- ===== src/Triage.antt =====
-- src/triage: the triage of bugs.
pub mod Resolution
pub mod Status
pub mod Sweep
pub mod Tests
pub mod Regression
