-- ===== src/Http.antt =====
-- src/verifier/http.rs.
pub mod Requests
pub mod Stages
