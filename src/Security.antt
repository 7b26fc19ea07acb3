-- ===== src/Security.antt =====
-- src/http_security.rs: which hosts and which origins a request may come from, and the comparison of
-- secrets.
pub mod Origin
pub mod Host
pub mod Tests
