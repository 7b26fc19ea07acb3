-- ===== src/Tenancy.antt =====
-- src/tenancy: the resources of an installation.
pub mod Pool
pub mod Blob
pub mod Tests
